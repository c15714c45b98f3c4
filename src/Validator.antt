-- ===== src/Validator.antt =====
-- Package validator: what `ssac validate` checks inside one function and against the symbol table
-- (validator/validator.go). `Errors` is validator/errors.go, `Symbols` the table of
-- validator/symbol.go.
pub mod Errors
pub mod Required
pub mod Flow
pub mod Stale
pub mod Guard
pub mod Rules
pub mod Symbols
pub mod Models
pub mod Requests
pub mod Snake
pub mod CallTypes
pub mod Reserved
pub mod Validate
