-- ===== src/User.antt =====
-- pkg/user: users and groups kept in the files passwd, group and shadow.
pub mod Errors
pub mod Names
pub mod Columns
pub mod Value
pub mod Passwd
pub mod Group
pub mod Shadow
pub mod Colon
pub mod Requirement
pub mod Repository
pub mod Shared
mod Tests
