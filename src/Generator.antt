-- ===== src/Generator.antt =====
-- Package generator: Go handlers from service functions (generator/). The text of the generated code
-- is modelled up to `format.Source`, a parameter with the naming rules of strcase (`Go`).
pub mod Go
pub mod Args
pub mod Params
pub mod Imports
pub mod Helpers
pub mod Tracking
pub mod Data
pub mod Statements
pub mod Templates
pub mod Loop
pub mod Handler
pub mod Usages
pub mod Interfaces
pub mod Target
