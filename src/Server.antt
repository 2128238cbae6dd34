-- ===== src/Server.antt =====
-- pkg/server: the Go server's side of the shared-memory protocol, a child module to a file.
pub mod Segments
pub mod ChunkManager
pub mod HandleChunk
pub mod RefCache
pub mod SystemHandler
pub mod AsyncFlush
pub mod AsyncBatcher
pub mod Lifecycle
pub mod JobPool
pub mod CommandBatcher
mod Tests
mod Runs
