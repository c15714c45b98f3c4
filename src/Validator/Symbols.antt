-- ===== src/Validator/Symbols.antt =====
-- validator/symbol.go: the symbol table, what the program learnt of the interfaces, the OpenAPI
-- operations and the database. A map to `bool`, in which the program stores `true` only, is the
-- list of its keys.
use ssac.Base.{ℕ, Bool, true, false, ◌||◌, List, Option, none, some}
use ssac.Text.{Text}
use ssac.Dict.{Dict, lookup}

-- Go's `int`, where it may be negative
pub data ℤ : Type 0 where
  pos negsuc : ℕ → ℤ

-- `param_types` is `none` for the nil map.
pub record MethodInfo : Type 0 where
  pub cardinality : Text
  pub params : List Text
  pub param_types : Option (Dict Text)
  pub err_status : ℤ

pub record ModelSymbol : Type 0 where
  pub methods : Dict MethodInfo

pub record ForeignKey : Type 0 where
  pub column : Text
  pub ref_table : Text
  pub ref_column : Text

pub record Index : Type 0 where
  pub name : Text
  pub columns : List Text
  pub is_unique : Bool

pub record DdlTable : Type 0 where
  pub columns : Dict Text
  pub column_order : List Text
  pub foreign_keys : List ForeignKey
  pub indexes : List Index
  pub primary_key : List Text

pub record PathParam : Type 0 where
  pub name : Text
  pub go_type : Text

pub record XPagination : Type 0 where
  pub style : Text
  pub default_limit : ℤ
  pub max_limit : ℤ

pub record XSort : Type 0 where
  pub allowed : List Text
  pub default : Text
  pub direction : Text

pub record XFilter : Type 0 where
  pub allowed : List Text

pub record XInclude : Type 0 where
  pub allowed : List Text

pub record OperationSymbol : Type 0 where
  pub request_fields : List Text
  pub path_params : List PathParam
  pub x_pagination : Option XPagination
  pub x_sort : Option XSort
  pub x_filter : Option XFilter
  pub x_include : Option XInclude

pub record SymbolTable : Type 0 where
  pub models : Dict ModelSymbol
  pub operations : Dict OperationSymbol
  pub funcs : List Text
  pub ddl_tables : Dict DdlTable
  pub dtos : List Text

abbrev pub is_some {ℓ} : {A : Type ℓ} → Option A → Bool
is_some none = false
is_some (some x) = true

-- `HasMethod`
unfoldable pub has_method : ModelSymbol → Text → Bool
unfolding lookup
has_method ms name = is_some (lookup name ms.methods)

-- `HasQueryOpts`
unfoldable pub has_query_opts : OperationSymbol → Bool
has_query_opts op =
    is_some op.x_pagination || is_some op.x_sort || is_some op.x_filter || is_some op.x_include
