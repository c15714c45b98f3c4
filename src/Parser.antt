-- ===== src/Parser.antt =====
-- Package parser: the comment lines of a .ssac file become the sequences of its functions.
-- `Types` is parser/types.go; the other definitions are parser/parser.go.
pub mod Types
pub mod Scan
pub mod Line
pub mod Syntax
pub mod Words
pub mod Blocks
pub mod Calls
pub mod Directive
pub mod Bodies
pub mod Guards
pub mod Effects
pub mod RoundTrip
pub mod Comments
pub mod File
pub mod Sound
