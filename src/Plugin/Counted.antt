-- ===== src/Plugin/Counted.antt =====
-- models_plugin/{session,backend,router}.go: the connections that a backend counts.
pub mod Release
pub mod Sessions
pub mod Chosen
pub mod Run
pub mod Chat
pub mod Returns
