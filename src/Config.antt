-- ===== src/Config.antt =====
-- pkg/config: values, schemas, validators, the configuration manager, and what stands around it: updates, secrets,
-- sources, formats and the application's configuration.
pub mod Schema
pub mod Types
pub mod Manager
pub mod Dynamic
pub mod Secrets
pub mod Formats
pub mod Sources
pub mod App
pub mod Validators
