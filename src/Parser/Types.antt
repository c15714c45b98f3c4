-- ===== src/Parser/Types.antt =====
-- parser/types.go: what the parser hands to the validator and to the generator.
use ssac.Base.{ℕ, Bool, true, false, List, [], Option, none, Outcome}
use ssac.Text.{Text, codes}
use ssac.Dict.{Dict}

-- `Sequence.Type`, a string in the source: a constructor for each constant that the program
-- compares it with, and `other` for every other string.
pub data SeqType : Type 0 where
  get post put delete empty exists state auth call publish response subscribe : SeqType
  other : Text → SeqType

-- The string that a `SeqType` stands for.
unfoldable pub type_name : SeqType → Text
type_name get = codes "get"
type_name post = codes "post"
type_name put = codes "put"
type_name delete = codes "delete"
type_name empty = codes "empty"
type_name exists = codes "exists"
type_name state = codes "state"
type_name auth = codes "auth"
type_name call = codes "call"
type_name publish = codes "publish"
type_name response = codes "response"
type_name subscribe = codes "subscribe"
type_name (other t) = t

-- `ValidSequenceTypes[t]`
unfoldable pub valid_sequence_type : SeqType → Bool
valid_sequence_type subscribe = false
valid_sequence_type (other t) = false
valid_sequence_type _ = true

pub record Arg : Type 0 where
  pub source : Text
  pub field : Text
  pub literal : Text

-- `type_of` is the source's `Type`, and `name` its `Var`.
pub record Binding : Type 0 where
  pub type_of : Text
  pub name : Text
  pub wrapper : Text

pub record Sequence : Type 0 where
  pub type : SeqType
  pub package_name : Text
  pub model : Text
  pub args : List Arg
  pub result : Option Binding
  pub target : Text
  pub diagram_id : Text
  pub inputs : Dict Text
  pub transition : Text
  pub topic : Text
  pub options : Dict Text
  pub action : Text
  pub resource : Text
  pub fields : Dict Text
  pub message : Text
  pub err_status : ℕ
  pub suppress_warn : Bool

-- `Sequence{Type: t}`, all else at Go's zero values. A nil map and an empty one are not told apart:
-- the program only ranges over them, reads them and takes their length.
abbrev pub blank : SeqType → Sequence
blank t = record {
  type = t;
  package_name = [];
  model = [];
  args = [];
  result = none;
  target = [];
  diagram_id = [];
  inputs = [];
  transition = [];
  topic = [];
  options = [];
  action = [];
  resource = [];
  fields = [];
  message = [];
  err_status = 0;
  suppress_warn = false;
}

pub record SubscribeInfo : Type 0 where
  pub topic : Text
  pub message_type : Text

pub record ParamInfo : Type 0 where
  pub type_name : Text
  pub var_name : Text

pub record StructField : Type 0 where
  pub name : Text
  pub type : Text

pub record StructInfo : Type 0 where
  pub name : Text
  pub fields : List StructField

pub record ServiceFunc : Type 0 where
  pub name : Text
  pub file_name : Text
  pub domain : Text
  pub sequences : List Sequence
  pub imports : List Text
  pub subscribe : Option SubscribeInfo
  pub param : Option ParamInfo
  pub structs : List StructInfo

-- The one error that the parser of directives makes: the pair that has no colon.
pub data ParseError : Type 0 where
  bad_pair : Text → ParseError

abbrev pub Parsed : Type 0 → Type 0
Parsed A = Outcome ParseError A
