-- ===== src/Tests.antt =====
-- Concrete runs of the model, and data for them.
pub mod Data
pub mod Managers
pub mod Store
pub mod Commands
pub mod Lines
pub mod Jails
pub mod Restarts
pub mod Numbers
mod Patterns
mod Site
mod Web
mod Gates
mod Configs
mod Servers
