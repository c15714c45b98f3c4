-- ===== src/Generator/Params.antt =====
-- generator/go_params.go: reading the parameters of a request.
pub mod Once
use ssac.Base.{
  Bool, true, false, ◌&&◌, ◌||◌, List, [], ◌∷◌, ◌++◌, Option, none, some, map, any, leb, length,
  if◌then◌else◌,
}
use ssac.Text.{Text, codes, text_eq}
use ssac.Dict.{member}
use ssac.Parser.Types.{SeqType, post, put, Sequence}
use ssac.Validator.Symbols.{PathParam, SymbolTable}
use ssac.Validator.Snake.{to_snake_case, any_column}
use ssac.Validator.Requests.{used_fields}
use ssac.Generator.Go.{Tools, concat, quote}

pub record RawParam : Type 0 where
  pub name : Text
  pub go_type : Text

-- `typedRequestParam`
pub record RequestParam : Type 0 where
  pub name : Text
  pub go_type : Text
  pub extract_code : Text

abbrev type_or_string : Option (Text × Text) → Text
type_or_string none = codes "string"
type_or_string (some (table, type)) = type

-- `lookupDDLType`
unfoldable pub lookup_ddl_type : Text → SymbolTable → Text
unfolding to_snake_case any_column
lookup_ddl_type name st = type_or_string (any_column (to_snake_case name) st.ddl_tables)

-- `goType`, which is string without a symbol table
abbrev pub param_type : Option SymbolTable → Text → Text
param_type none field = codes "string"
param_type (some st) field = lookup_ddl_type field st

-- The loops over the sequences: each field that is named, once, without the path's parameters.
unfoldable pub new_fields : List Text → List Text → List Text → List Text
unfolding member
new_fields paths seen [] = []
new_fields paths seen (f ∷ fs) =
    let rest = new_fields paths seen fs in
    let taken = f ∷ new_fields paths (f ∷ seen) fs in
    if member f seen || member f paths then rest else taken

unfoldable pub raw_params : Option SymbolTable → List Text → List Sequence → List RawParam
unfolding new_fields used_fields lookup_ddl_type
raw_params st paths seqs =
    map (λ f. record { name = f; go_type = param_type st f })
      (new_fields paths [] (used_fields seqs))

abbrev is_body_type : SeqType → Bool
is_body_type post = true
is_body_type put = true
is_body_type _ = false

abbrev is_body : Sequence → Bool
is_body seq = is_body_type seq.type

abbrev has_table : Option SymbolTable → Bool
has_table none = false
has_table (some st) = true

-- Whether the parameters come in a JSON body.
unfoldable pub in_body : Option SymbolTable → List Sequence → List RawParam → Bool
in_body st seqs raw =
    (has_table st && leb 2 (length raw)) || (any is_body seqs && leb 1 (length raw))

abbrev is_time : RawParam → Bool
is_time p = text_eq p.go_type (codes "time.Time")

-- The first parameter that is a time, without code of its own.
first_time : List RawParam → List RequestParam
first_time [] = []
first_time (p ∷ ps) =
    let rest = first_time ps in
    if is_time p
    then record { name = p.name; go_type = p.go_type; extract_code = [] } ∷ []
    else rest

-- The code of one query parameter: a call that may fail, with the answer if it does.
abbrev invalid : Text → Text
invalid name =
    codes "\tif err != nil {\n\t\tc.JSON(http.StatusBadRequest, gin.H{\"error\": \""
    ++ (name ++ codes ": 유효하지 않은 값\"})\n\t\treturn\n\t}\n")

abbrev invalid_path : Text
invalid_path =
    codes
      "\tif err != nil {\n\t\tc.JSON(http.StatusBadRequest, gin.H{\"error\": \"invalid path parameter\"})\n\t\treturn\n\t}\n"

module _ (t : Tools) where
  converted : Text → Text → Text → Text → Text
  unfolding concat quote
  converted var name call more = concat (
      codes "\t"
      ∷ var
      ∷ codes ", err := "
      ∷ call
      ∷ codes "(c.Query("
      ∷ quote t name
      ∷ codes ")"
      ∷ more
      ∷ codes ")\n"
      ∷ invalid name
      ∷ [])

  -- `generateExtractCode`
  unfoldable pub generate_extract_code : Text → Text → Text → Text
  unfolding converted concat quote text_eq
  generate_extract_code var name type =
      if text_eq type (codes "int64")
      then converted var name (codes "strconv.ParseInt") (codes ", 10, 64")
      else if text_eq type (codes "float64")
      then converted var name (codes "strconv.ParseFloat") (codes ", 64")
      else if text_eq type (codes "bool")
      then converted var name (codes "strconv.ParseBool") []
      else if text_eq type (codes "time.Time")
      then concat (
          codes "\t"
          ∷ var
          ∷ codes ", err := time.Parse(time.RFC3339, c.Query("
          ∷ quote t name
          ∷ codes "))\n"
          ∷ invalid name
          ∷ [])
      else concat (codes "\t" ∷ var ∷ codes " := c.Query(" ∷ quote t name ∷ codes ")\n" ∷ [])

  path_converted : Text → Text → Text → Text → Text
  unfolding concat quote
  path_converted var name call more = concat (
      codes "\t"
      ∷ var
      ∷ codes "Str := c.Param("
      ∷ quote t name
      ∷ codes ")\n\t"
      ∷ var
      ∷ codes ", err := "
      ∷ call
      ∷ codes "("
      ∷ var
      ∷ codes "Str"
      ∷ more
      ∷ codes ")\n"
      ∷ invalid_path
      ∷ [])

  -- `generatePathParamCode`
  unfoldable pub generate_path_param_code : PathParam → Text
  unfolding path_converted concat quote text_eq
  generate_path_param_code p =
      let var = t.to_go_camel p.name in
      if text_eq p.go_type (codes "int64")
      then path_converted var p.name (codes "strconv.ParseInt") (codes ", 10, 64")
      else if text_eq p.go_type (codes "float64")
      then path_converted var p.name (codes "strconv.ParseFloat") (codes ", 64")
      else concat (codes "\t" ∷ var ∷ codes " := c.Param(" ∷ quote t p.name ∷ codes ")\n" ∷ [])

  body_field : RawParam → Text
  unfolding concat
  body_field p = concat (
      codes "\t\t"
      ∷ t.to_go_pascal p.name
      ∷ codes " "
      ∷ p.go_type
      ∷ codes " `json:\""
      ∷ p.name
      ∷ codes "\"`\n"
      ∷ [])

  body_var : RawParam → Text
  unfolding concat
  body_var p = concat (
      codes "\t"
      ∷ t.to_go_camel p.name
      ∷ codes " := req."
      ∷ t.to_go_pascal p.name
      ∷ codes "\n"
      ∷ [])

  -- `buildJSONBodyParams`
  unfoldable pub build_json_body_params : List RawParam → List RequestParam
  unfolding body_field body_var first_time concat text_eq
  build_json_body_params raw =
      record {
        name = codes "_json_body";
        go_type = codes "json_body";
        extract_code = concat (
            codes "\tvar req struct {\n"
            ∷ concat (map body_field raw)
            ∷ codes
                "\t}\n\tif err := c.ShouldBindJSON(&req); err != nil {\n\t\tc.JSON(http.StatusBadRequest, gin.H{\"error\": \"invalid request body\"})\n\t\treturn\n\t}\n"
            ∷ concat (map body_var raw)
            ∷ []);
      }
      ∷ first_time raw

  abbrev query_param : RawParam → RequestParam
  query_param p = record {
    name = p.name;
    go_type = p.go_type;
    extract_code = generate_extract_code (t.to_go_camel p.name) p.name p.go_type;
  }

  -- `collectRequestParams`
  unfoldable pub collect_request_params :
      List Sequence → Option SymbolTable → List Text → List RequestParam
  unfolding raw_params in_body build_json_body_params generate_extract_code
  collect_request_params seqs st paths =
      let raw = raw_params st paths seqs in
      if in_body st seqs raw then build_json_body_params raw else map query_param raw
