-- ===== src/Structs.antt =====
-- The structs that replies of aria2 are decoded to, and the options that are sent: status.go,
-- file.go, uri.go, peer.go, server.go, stats.go, session.go, version.go and options.go. Each struct is
-- a record and the list of its fields with their tags.
pub mod Files
pub mod Peers
pub mod Stats
pub mod Documented
pub mod StatusReply
pub mod Status
pub mod Options
mod Tests
