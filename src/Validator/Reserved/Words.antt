-- ===== src/Validator/Reserved/Words.antt =====
-- When no input is named like a Go keyword.
use ssac.Base.{◌≡◌, ◌≢◌, false, not, ◌||◌, [], All, is_empty}
use ssac.Text.{Text}
use ssac.Dict.{keys}
use ssac.Parser.Types.{Sequence, ServiceFunc}
use ssac.Validator.Models.{is_call}
use ssac.Validator.Reserved.{is_go_reserved, Found}

-- The keys of a sequence that is neither of a package nor a call are no keywords.
abbrev pub NoKeyword : Text → Type 0
NoKeyword key = is_go_reserved key ≡ false

abbrev pub SequenceClean : Sequence → Type 0
SequenceClean seq =
    (not (is_empty seq.package_name) || is_call seq.type) ≡ false → All NoKeyword (keys seq.inputs)

abbrev pub FunctionClean : ServiceFunc → Type 0
FunctionClean sf = All SequenceClean sf.sequences

abbrev nothing_found : Found
nothing_found = ([], [])

-- An error has been found.
abbrev HasError : Found → Type 0
HasError found = found.0 ≢ []
