-- ===== src/Pool.antt =====
-- internal/pool/pool.go: the request pools of the local backends and the counters of requests in
-- flight to remote nodes.
pub mod Remote
pub mod Requests
pub mod Manager
