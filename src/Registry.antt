-- ===== src/Registry.antt =====
-- internal/registry: the endpoints of this node and of the others.
pub mod Local
pub mod Facade
