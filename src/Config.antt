-- ===== src/Config.antt =====
-- src/config: the configuration files.
pub mod Ini
pub mod Merge
pub mod Interpolate
pub mod Depth
pub mod Enough
pub mod Specs
pub mod Agree
pub mod Definitions
pub mod Loaded
