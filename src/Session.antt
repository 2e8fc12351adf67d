-- ===== src/Session.antt =====
-- pkg/session: sessions kept as files, their states and tokens, and the connections that use them.
pub mod Compare
pub mod State
pub mod Files
pub mod Store
pub mod Fs
pub mod Predicates
pub mod Repository
pub mod PublicKeys
pub mod Iterate
pub mod Interceptors
pub mod Tests
