-- ===== src/Lint.antt =====
-- pkg/lint: the linter, which runs the rules over files and counts the outcomes.
pub mod Model
pub mod Policy
pub mod Environments
pub mod Coverage
pub mod Findings
pub mod Check
pub mod Manifest
pub mod Embedded
pub mod Summary
pub mod Pool
mod Examples
