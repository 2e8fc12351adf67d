-- ===== src/Crypto.antt =====
-- pkg/crypto: how passwords are kept and compared.
pub mod Passwords
pub mod KeyOptions
pub mod AuthorizedKeys
pub mod Restrictions
mod Tests
