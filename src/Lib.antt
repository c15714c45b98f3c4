-- ===== src/Lib.antt =====
-- ssac: service sequences as code. A .ssac file declares a service function by comment lines, one
-- directive a line (`@get`, `@post`, ..., `@response`). The parser makes sequences of them, the
-- validator checks them, the generator writes Go handlers. Modelled here are the parser, the
-- validator with the types of the symbol table, the generator, and of the runtime packages that
-- generated code calls the refresh tokens of pkg/auth and the memory stores of pkg/cache and
-- pkg/session.
--
-- Which file models what:
--   Base          shared names, tests on numbers, list predicates, and `Outcome`, what a Go function
--                 does that may return an error or panic.
--   Text          Go's `strings` functions and `strconv.Atoi`, on lists of code points; Text/Cut and
--                 Text/Trim have their laws, Text/Sort has `sort.Strings`.
--   Dict          Go's maps with text keys, as association lists; Dict/Laws, Dict/Order.
--   Parser        parser/types.go is Parser/Types. Of parser/parser.go, Scan has the scanners
--                 (`parseInputs`, `extractInputs`, `extractQuoted`, `parseResult`,
--                 `parseCallExprInputs`, ...), Line has `parseLine` and what it dispatches to,
--                 Comments has `parseComments`, File has `ParseFile` and `ParseDir`. Syntax and
--                 Directive describe the documented form of the directives (README.md, Sequence
--                 Types); it is not in the program. Words, Blocks, Calls, Bodies, Guards, Effects
--                 and RoundTrip hold the lemmas about that form. Sound and
--                 Comments/Growth are about all texts.
--   Validator     validator/errors.go is Errors. Of validator/validator.go, Required, Flow, Stale,
--                 Guard and Rules have the six checks of `validateFunc`, and Validate composes them.
--                 Symbols has the types of validator/symbol.go; Models, Requests, CallTypes, Snake
--                 and Reserved have the checks of `ValidateWithSymbols` against them. Children
--                 describe what a check accepts.
--   Generator     generator/. Go has what the generator takes from outside (strcase, go/format,
--                 strconv.IsPrint) as the record `Tools`. Args is go_args.go; Params and Imports are
--                 go_params.go; Helpers, Tracking and Data are go_helpers.go, with
--                 `buildTemplateData` in Data and its tracking of declared variables in Tracking;
--                 Statements and Templates are go_templates.go, each template as the statement that
--                 it begins with and the text behind it; Loop and Handler are go_handler.go, the
--                 loop over the sequences and the handler's text; Usages, Interfaces and Target are
--                 go_interface.go, go_target.go and generator.go. Loop/Commits, Loop/Scope,
--                 Loop/Total, Handler/Transaction, Handler/Total, Args/AnyOrder, Params/Once and
--                 the children of Interfaces hold what is proved of them. Loop/Scope states Go's rules on declared
--                 names; it is not in the program.
--   Auth          pkg/auth/. Store is memory_refresh_store.go, a map from hashes to rows; Store/Spec
--                 gives the status of each token that it stands for, Store/Once what stays true
--                 through any operations. Tokens is issue_token.go, refresh_token.go and
--                 verify_token.go; Rotate is refresh_rotate.go, logout.go and create_refresh.go,
--                 with Rotate/Twice; Cookies is cookie_attrs.go and the two cookie functions;
--                 Cookies/Browser says what a browser holds of them (RFC 6265), which is not in the
--                 program. `Outside` and `Signing` have what they take from outside: sha256,
--                 encoding/json, golang-jwt and the environment.
--   Memory        pkg/cache/ and pkg/session/: their memory stores, which have the same code.
--   Tests         runs on small inputs and the theorems at concrete inputs.
--
-- How the model stands to the code. A Go string is the list of its code points: the texts come from
-- Go's parser, which refuses sources that are not UTF-8, and the program cuts them beside ASCII
-- characters only. A slice out of bounds is `panic`. A nil pointer is `none`, an index of -1 is
-- `none`. A map is an association list; a loop over a map takes the list's order, and the theorems
-- range over all lists, hence over all orders. An error message is a constructor with the values that
-- it shows. The generator's code is the text that it hands to gofmt; a file to be written is its
-- folder, name and text. The mutex of the refresh store makes each of its operations one step, so
-- that a run of concurrent requests is a sequence of them; each reading of the clock is an
-- argument, in nanoseconds. All loops are recursions on the list that they run through; only the
-- digits of a number are counted with fuel, the number and one more, which is enough
-- (Generator/Go/Digits).
--
-- Not modelled: Go's own parser, the walk through the directory and the reading of files (go/parser,
-- filepath, os); `parseCallExpr`, `parseArgs` and `parseArg`, which nothing calls; the text of error
-- messages; the readers that fill the symbol table; the writing of files and what gofmt does;
-- `resolveArgParamName`, `resolveArgParamType`, `lcFirst` and `ucFirst`, which nothing calls; the
-- other packages under pkg/, the command line, and the superseded first version under v1/.
pub mod Base
pub mod Text
pub mod Dict
pub mod Parser
pub mod Validator
pub mod Generator
pub mod Auth
pub mod Memory
mod Tests
