-- ===== src/Service.antt =====
-- pkg/service: the server, as far as it lets connections in and cleans up.
pub mod Housekeeper
pub mod Handshake
mod Tests
