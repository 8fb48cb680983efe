-- ===== src/Jail.antt =====
-- src/server/jail.rs: a running jail. State and Bantime hold its data and its ban times, Ignore the
-- ignorecommand and the name resolution, Ban, Manual, Line and Purge the handlers, Task the loop; the
-- other modules prove what these do.
pub mod State
pub mod Bantime
pub mod Ignore
pub mod Ban
pub mod Manual
pub mod Line
pub mod Purge
pub mod Task
pub mod Times
pub mod Whitelist
pub mod Tracked
pub mod KeepsLine
pub mod Keeps
pub mod OnDemand
pub mod Bans
