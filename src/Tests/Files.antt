-- ===== src/Tests/Files.antt =====
-- A whole file through `ParseFile`.
use ssac.Base.{◌≡◌, refl, arith, List, ◌++◌, [], ◌∷◌, none, All, ok}
use ssac.Text.{codes}
use ssac.Parser.Types.{exists, empty, blank, Sequence, ServiceFunc}
use ssac.Parser.Comments.{parse_comments}
use ssac.Parser.Comments.Growth.{earlier_sequences_stay}
use ssac.Parser.File.{File, func_decl, comments_before, parse_file}
use ssac.Parser.Sound.Functions.{FunctionListed, parse_file-FunctionListed}
use ssac.Validator.Required.Kinds.{KindsKnown, parse_file-KindsKnown}
use ssac.Tests.Runs.{whole_files}

-- Two functions, each with one directive above it.
abbrev two_functions : File
two_functions = record {
  decls =
      func_decl (record { name = codes "First"; pos = 40; params = [] })
      ∷ func_decl (record { name = codes "Second"; pos = 90; params = [] })
      ∷ [];
  comments =
      record { end = 39; list = codes "// @exists user \"taken\" 409" ∷ [] }
      ∷ record { end = 89; list = codes "// @empty user \"gone\" 600" ∷ [] }
      ∷ [];
  imports = codes "\"net/http\"" ∷ codes "\"time\"" ∷ [];
}

abbrev taken : Sequence
taken = record (blank exists) { target = codes "user"; message = codes "taken"; err_status = 409 }

-- A status out of range is dropped.
abbrev gone : Sequence
gone = record (blank empty) { target = codes "user"; message = codes "gone" }

abbrev first : ServiceFunc
first = record {
  name = codes "First";
  file_name = codes "two.ssac";
  domain = [];
  sequences = taken ∷ [];
  imports = codes "time" ∷ [];
  subscribe = none;
  param = none;
  structs = [];
}

-- The second function has the first one's sequence too.
abbrev second : ServiceFunc
second = record first { name = codes "Second"; sequences = taken ∷ gone ∷ [] }

parse-two_functions : parse_file (codes "two.ssac") two_functions ≡ ok (first ∷ second ∷ [])
unfolding whole_files
parse-two_functions = refl

parse_file-FunctionListed_example : All FunctionListed (first ∷ second ∷ [])
parse_file-FunctionListed_example =
    parse_file-FunctionListed (codes "two.ssac") two_functions (first ∷ second ∷ [])
      parse-two_functions

first_comments : parse_comments (comments_before 40 two_functions.comments) ≡ ok (taken ∷ [])
unfolding whole_files
first_comments = refl

second_comments :
    parse_comments (comments_before 90 two_functions.comments) ≡ ok (taken ∷ gone ∷ [])
unfolding whole_files
second_comments = refl

earlier_sequences_stay_example : (more : List Sequence) × (taken ∷ gone ∷ [] ≡ (taken ∷ []) ++ more)
earlier_sequences_stay_example =
    earlier_sequences_stay 40 90 0 two_functions.comments (taken ∷ []) (taken ∷ gone ∷ [])
      (omega arith) (omega arith, (omega arith, tt)) first_comments second_comments

parse_file-KindsKnown_example : All KindsKnown (first ∷ second ∷ [])
parse_file-KindsKnown_example =
    parse_file-KindsKnown (codes "two.ssac") two_functions (first ∷ second ∷ []) parse-two_functions
