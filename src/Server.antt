-- ===== src/Server.antt =====
-- cmd/server and internal/server: how requests go through the middleware to the router, and batches.
pub mod Chain
pub mod Batch
pub mod Depth
