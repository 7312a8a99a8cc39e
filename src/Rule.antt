-- ===== src/Rule.antt =====
-- pkg/rule: the vocabulary of the checks, and the checks.
pub mod Docs
pub mod Node
pub mod Words
pub mod ExtensionRefs
pub mod Index
pub mod Context
pub mod Settings
pub mod Identifiers
pub mod Keys
pub mod MemoryLimiter
pub mod Fields
pub mod Upstream
pub mod ConnectorWiring
pub mod Pipelines
pub mod Usage
pub mod References
pub mod ProcessorOrder
pub mod Sample
mod Examples
