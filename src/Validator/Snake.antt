-- ===== src/Validator/Snake.antt =====
-- validator/validator.go, `toSnakeCase` and `toLowerFirst`, and the columns they are looked up as.
pub mod Words
use ssac.Base.{
  ℕ, ◌+◌, ◌%◌, Bool, false, ◌&&◌, ◌||◌, [], ◌∷◌, ◌++◌, Option, none, some, leb, if◌then◌else◌,
  is_empty, take,
}
use ssac.Text.{Text, codes, index}
use ssac.Dict.{Dict, lookup}
use ssac.Validator.Symbols.{DdlTable, SymbolTable, is_some}

abbrev pub is_upper : ℕ → Bool
is_upper c = leb b'A' c && leb c b'Z'

abbrev pub is_lower : ℕ → Bool
is_lower c = leb b'a' c && leb c b'z'

-- `i+1 < len(s)` and a lower-case letter there
abbrev pub lower_next : Text → Bool
lower_next [] = false
lower_next (c ∷ s) = is_lower c

-- Whether an underscore stands before an upper-case letter.
abbrev pub splits_word : Option ℕ → Text → Bool
splits_word none s = false
splits_word (some prev) s = is_lower prev || (is_upper prev && lower_next s)

-- What one character adds: `byte(c)` keeps its low eight bits.
unfoldable pub snake_char : Option ℕ → ℕ → Text → Text
snake_char prev c s =
    if is_upper c
    then (if splits_word prev s then b'_' ∷ (c + 32) ∷ [] else (c + 32) ∷ [])
    else (c % 256) ∷ []

-- The loop, with the character before.
unfoldable pub snake_from : Option ℕ → Text → Text
snake_from prev [] = []
snake_from prev (c ∷ s) = snake_char prev c s ++ snake_from (some c) s

-- `toSnakeCase`
unfoldable pub to_snake_case : Text → Text
unfolding snake_char snake_from
to_snake_case s = snake_from none s

-- `toLowerFirst`. The source lowers the first byte, and so breaks up a first character beyond
-- ASCII; here that is kept. No Go keyword begins with the one or the other.
unfoldable pub to_lower_first : Text → Text
to_lower_first [] = []
to_lower_first (c ∷ s) = if is_upper c then (c + 32) ∷ s else c ∷ s

-- `strings.SplitN(s, ".", 2)[0]`
unfoldable pub before_dot : Text → Text
before_dot s = elim (index b'.' s) [ none ↦ s | some i ↦ take i s ]

-- `toSnakeCase(name) + "s"`
unfoldable pub table_name : Text → Text
unfolding to_snake_case
table_name model = to_snake_case model ++ codes "s"

abbrev column_of : Text → Option DdlTable → Option Text
column_of col none = none
column_of col (some t) = lookup col t.columns

-- The type of a column of a named table.
unfoldable pub column_type : SymbolTable → Text → Text → Option Text
unfolding lookup
column_type st table col = column_of col (lookup table st.ddl_tables)

-- The first table, in the order of the loop, that has the column: its name and the column's type.
unfoldable pub any_column : Text → Dict DdlTable → Option (Text × Text)
unfolding lookup
any_column col [] = none
any_column col ((name, t) ∷ tables) =
    let rest = any_column col tables in
    elim (lookup col t.columns) [ some type ↦ some (name, type) | none ↦ rest ]

abbrev named_table : Option (Text × Text) → Option Text
named_table none = none
named_table (some (name, type)) = some name

-- `findColumnTable`: the model's own table first, then all of them; `none` for a nil symbol table.
unfoldable pub find_column_table : Text → Text → Option SymbolTable → Option Text
unfolding table_name before_dot column_type any_column
find_column_table col model none = none
find_column_table col model (some st) =
    let table = table_name (before_dot model) in
    let found = named_table (any_column col st.ddl_tables) in
    if is_empty model
    then found
    else if is_some (column_type st table col)
    then some table
    else found
