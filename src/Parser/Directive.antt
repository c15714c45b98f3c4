-- ===== src/Parser/Directive.antt =====
-- The directives as README.md documents them: how each is written, which sequence it stands for,
-- and what makes one well formed. This is the description that the parser is held against; none
-- of it stands in the program.
use ssac.Base.{ℕ, Bool, true, false, [], ◌∷◌, ◌++◌, Option, none, some}
use ssac.Text.{Text, codes}
use ssac.Text.Cut.{Free}
use ssac.Text.Trim.{IsTight}
use ssac.Dict.{Dict}
use ssac.Parser.Types.{
  SeqType, get, post, put, delete, empty, exists, state, auth, call, publish, subscribe, Sequence,
  blank,
}
use ssac.Parser.Syntax.{
  IsWord, IsBlock, print_block, quoted, print_status, status_value, IsStatus, TypeExpr, print_type,
  IsType, binding, ModelRef, model_text, package_text, print_model,
}
use ssac.Parser.Words.{IsModelRef}
use ssac.Parser.Calls.{print_call}

pub data Directive : Type 0 where
  -- @get and @post: a result, a model, inputs
  get_d post_d : TypeExpr → Text → ModelRef → Dict Text → Directive
  -- @put and @delete
  put_d delete_d : ModelRef → Dict Text → Directive
  -- @empty and @exists: target, message, status
  empty_d exists_d : Text → Text → Option ℕ → Directive
  -- @state: diagram, inputs, transition, message, status
  state_d : Text → Dict Text → Text → Text → Option ℕ → Directive
  -- @auth: action, resource, inputs, message, status
  auth_d : Text → Text → Dict Text → Text → Option ℕ → Directive
  -- @call, without and with a result
  call_d : Text → Dict Text → Option ℕ → Directive
  call_result_d : TypeExpr → Text → Text → Dict Text → Option ℕ → Directive
  -- @publish: topic, payload, options
  publish_d : Text → Dict Text → Dict Text → Directive
  subscribe_d : Text → Directive

abbrev pub tag : Directive → Text
tag (get_d _ _ _ _) = codes "@get"
tag (post_d _ _ _ _) = codes "@post"
tag (put_d _ _) = codes "@put"
tag (delete_d _ _) = codes "@delete"
tag (empty_d _ _ _) = codes "@empty"
tag (exists_d _ _ _) = codes "@exists"
tag (state_d _ _ _ _ _) = codes "@state"
tag (auth_d _ _ _ _ _) = codes "@auth"
tag (call_d _ _ _) = codes "@call"
tag (call_result_d _ _ _ _ _) = codes "@call"
tag (publish_d _ _ _) = codes "@publish"
tag (subscribe_d _) = codes "@subscribe"

-- `Type var = `
abbrev pub print_bound : TypeExpr → Text → Text → Text
print_bound t v rest = ((print_type t ++ b' ' ∷ v) ++ b' ' ∷ []) ++ b'=' ∷ b' ' ∷ rest

abbrev pub print_target : Text → Text → Text
print_target target rest = (target ++ b' ' ∷ []) ++ rest

abbrev pub print_options : Dict Text → Text
print_options [] = []
print_options (p ∷ d) = b' ' ∷ print_block (p ∷ d) []

abbrev pub body : Directive → Text
body (get_d t v m d) = print_bound t v (print_call (print_model m) d [])
body (post_d t v m d) = print_bound t v (print_call (print_model m) d [])
body (put_d m d) = print_call (print_model m) d []
body (delete_d m d) = print_call (print_model m) d []
body (empty_d target msg st) = print_target target (quoted msg (print_status st))
body (exists_d target msg st) = print_target target (quoted msg (print_status st))
body (state_d id d move msg st) =
    id ++ b' ' ∷ print_block d (b' ' ∷ quoted move (b' ' ∷ quoted msg (print_status st)))
body (auth_d action resource d msg st) =
    quoted action
      (b' ' ∷ quoted resource (b' ' ∷ print_block d (b' ' ∷ quoted msg (print_status st))))
body (call_d model d st) = print_call model d (print_status st)
body (call_result_d t v model d st) = print_bound t v (print_call model d (print_status st))
body (publish_d topic d options) = quoted topic (b' ' ∷ print_block d (print_options options))
body (subscribe_d topic) = quoted topic []

abbrev pub print_mark : Bool → Text → Text
print_mark true rest = b'!' ∷ rest
print_mark false rest = rest

-- The line, `true` for a tag with the `!` that suppresses warnings.
abbrev pub print : Directive → Bool → Text
print d marked = tag d ++ print_mark marked (b' ' ∷ body d)

abbrev pub crud : SeqType → Option (TypeExpr × Text) → ModelRef → Dict Text → Sequence
crud t none m d = record (blank t) {
  package_name = package_text m;
  model = model_text m;
  inputs = d;
}
crud t (some (e, v)) m d = record (blank t) {
  package_name = package_text m;
  model = model_text m;
  result = some (binding e v);
  inputs = d;
}

abbrev pub guard : SeqType → Text → Text → Option ℕ → Sequence
guard t target msg st = record (blank t) {
  target = target;
  message = msg;
  err_status = status_value st;
}

abbrev pub meaning : Directive → Sequence
meaning (get_d t v m d) = crud get (some (t, v)) m d
meaning (post_d t v m d) = crud post (some (t, v)) m d
meaning (put_d m d) = crud put none m d
meaning (delete_d m d) = crud delete none m d
meaning (empty_d target msg st) = guard empty target msg st
meaning (exists_d target msg st) = guard exists target msg st
meaning (state_d id d move msg st) = record (blank state) {
  diagram_id = id;
  inputs = d;
  transition = move;
  message = msg;
  err_status = status_value st;
}
meaning (auth_d action resource d msg st) = record (blank auth) {
  action = action;
  resource = resource;
  inputs = d;
  message = msg;
  err_status = status_value st;
}
meaning (call_d model d st) = record (blank call) {
  model = model;
  inputs = d;
  err_status = status_value st;
}
meaning (call_result_d t v model d st) = record (blank call) {
  model = model;
  result = some (binding t v);
  inputs = d;
  err_status = status_value st;
}
meaning (publish_d topic d options) = record (blank publish) {
  topic = topic;
  inputs = d;
  options = options;
}
meaning (subscribe_d topic) = record (blank subscribe) { topic = topic }

-- A quoted text holds no quote; names are words; a guard's target is tight and holds no quote.
abbrev pub IsDirective : Directive → Type 0
IsDirective (get_d t v m d) = IsType t × IsWord v × IsModelRef m × IsBlock d
IsDirective (post_d t v m d) = IsType t × IsWord v × IsModelRef m × IsBlock d
IsDirective (put_d m d) = IsModelRef m × IsBlock d
IsDirective (delete_d m d) = IsModelRef m × IsBlock d
IsDirective (empty_d target msg st) =
    IsTight target × Free b'"' target × Free b'"' msg × IsStatus st
IsDirective (exists_d target msg st) =
    IsTight target × Free b'"' target × Free b'"' msg × IsStatus st
IsDirective (state_d id d move msg st) =
    IsWord id × IsBlock d × Free b'"' move × Free b'"' msg × IsStatus st
IsDirective (auth_d action resource d msg st) =
    Free b'"' action × Free b'"' resource × IsBlock d × Free b'"' msg × IsStatus st
IsDirective (call_d model d st) = IsWord model × IsBlock d × IsStatus st
IsDirective (call_result_d t v model d st) =
    IsType t × IsWord v × IsWord model × IsBlock d × IsStatus st
IsDirective (publish_d topic d options) = Free b'"' topic × IsBlock d × IsBlock options
IsDirective (subscribe_d topic) = Free b'"' topic
