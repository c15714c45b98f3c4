-- ===== src/Validator/Reserved.antt =====
-- validator/validator.go, `validateGoReservedWords`: inputs whose names would be Go keywords, each
-- reported once.
pub mod Words
use ssac.Base.{
  ℕ, ◌+◌, Bool, not, ◌||◌, List, [], ◌∷◌, ◌++◌, Option, none, some, if◌then◌else◌, is_empty,
}
use ssac.Text.{Text, codes}
use ssac.Dict.{keys, member}
use ssac.Parser.Types.{Sequence, ServiceFunc}
use ssac.Validator.Errors.{
  reserved_column, reserved_parameter, Message, ValidationError, ErrCtx, err, at_type,
}
use ssac.Validator.Rules.{ctx_at}
use ssac.Validator.Symbols.{SymbolTable}
use ssac.Validator.Models.{is_call}
use ssac.Validator.Snake.{to_snake_case, to_lower_first, find_column_table}

-- `goReservedWords`
abbrev pub go_reserved_words : List Text
go_reserved_words =
    codes "break"
    ∷ codes "case"
    ∷ codes "chan"
    ∷ codes "const"
    ∷ codes "continue"
    ∷ codes "default"
    ∷ codes "defer"
    ∷ codes "else"
    ∷ codes "fallthrough"
    ∷ codes "for"
    ∷ codes "func"
    ∷ codes "go"
    ∷ codes "goto"
    ∷ codes "if"
    ∷ codes "import"
    ∷ codes "interface"
    ∷ codes "map"
    ∷ codes "package"
    ∷ codes "range"
    ∷ codes "return"
    ∷ codes "select"
    ∷ codes "struct"
    ∷ codes "switch"
    ∷ codes "type"
    ∷ codes "var"
    ∷ []

unfoldable pub is_go_reserved : Text → Bool
unfolding member to_lower_first
is_go_reserved key = member (to_lower_first key) go_reserved_words

abbrev table_or_empty : Option Text → Text
table_or_empty none = []
table_or_empty (some t) = t

-- `tableName + "." + snakeName`
unfoldable pub dedup_key : Option Text → Text → Text
unfolding to_snake_case
dedup_key table key = table_or_empty table ++ codes "." ++ to_snake_case key

abbrev reserved_message : Option Text → Text → Message
reserved_message none key = reserved_parameter (to_lower_first key)
reserved_message (some table) key = reserved_column (to_snake_case key) table

-- The errors so far, and `seen`.
abbrev pub Found : Type 0
Found = List ValidationError × List Text

abbrev pub note : ErrCtx → Sequence → Text → Option Text → Found → Found
note c seq key table (errs, seen) = if member (dedup_key table key) seen then (errs, seen) else (
  errs ++ err c (at_type seq.type) (reserved_message table key) ∷ [],
  dedup_key table key ∷ seen,
)

unfoldable pub reserved_key : Option SymbolTable → ErrCtx → Sequence → Text → Found → Found
unfolding is_go_reserved dedup_key find_column_table
reserved_key st c seq key found =
    if is_go_reserved key
    then note c seq key (find_column_table (to_snake_case key) seq.model st) found
    else found

unfoldable pub reserved_keys : Option SymbolTable → ErrCtx → Sequence → List Text → Found → Found
unfolding reserved_key
reserved_keys st c seq [] found = found
reserved_keys st c seq (key ∷ ks) found =
    reserved_keys st c seq ks (reserved_key st c seq key found)

-- Models of packages and calls are passed over.
unfoldable pub reserved_seq : Option SymbolTable → ErrCtx → Sequence → Found → Found
unfolding reserved_keys
reserved_seq st c seq found =
    if not (is_empty seq.package_name) || is_call seq.type
    then found
    else reserved_keys st c seq (keys seq.inputs) found

unfoldable pub reserved_seqs : Option SymbolTable → ServiceFunc → ℕ → List Sequence → Found → Found
unfolding reserved_seq
reserved_seqs st sf i [] found = found
reserved_seqs st sf i (seq ∷ seqs) found =
    reserved_seqs st sf (i + 1) seqs (reserved_seq st (ctx_at sf i) seq found)

unfoldable pub reserved_funcs : Option SymbolTable → List ServiceFunc → Found → Found
unfolding reserved_seqs
reserved_funcs st [] found = found
reserved_funcs st (sf ∷ funcs) found =
    reserved_funcs st funcs (reserved_seqs st sf 0 sf.sequences found)

unfoldable pub validate_go_reserved_words :
    List ServiceFunc → Option SymbolTable → List ValidationError
unfolding reserved_funcs
validate_go_reserved_words funcs st = (reserved_funcs st funcs ([], [])).0
