-- ===== src/Tests.antt =====
-- Runs of the parser and of the validator on small inputs, and the theorems at concrete inputs.
mod Runs
mod Directives
mod Functions
mod Files
mod Symbols
mod Handlers
mod Tokens
mod Interfaces
