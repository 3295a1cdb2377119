-- ===== src/Models.antt =====
-- internal/models: the stores of local endpoints and of remote nodes.
pub mod Node
pub mod Endpoint
