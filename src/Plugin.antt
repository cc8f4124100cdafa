-- ===== src/Plugin.antt =====
-- pkg/plugin: table schemas, filters, the registry, the dependency graph, the loader and the lifecycle of plugins.
pub mod Types
pub mod Names
pub mod Schema
pub mod Filter
pub mod Graph
pub mod Registry
pub mod Lock
pub mod Loader
pub mod Lifecycle
