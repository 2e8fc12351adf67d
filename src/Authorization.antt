-- ===== src/Authorization.antt =====
-- pkg/authorization: who is let in, and to which session, by one flow or by the first of several.
pub mod Request
pub mod Entry
pub mod Simple
pub mod Htpasswd
pub mod Unchecked
pub mod Facade
mod Tests
