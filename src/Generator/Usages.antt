-- ===== src/Generator/Usages.antt =====
-- generator/go_interface.go: which methods of which models the functions use.
use ssac.Base.{not, ◌&&◌, ◌||◌, List, [], ◌∷◌, ◌++◌, Option, none, some, is_empty, if◌then◌else◌}
use ssac.Text.{Text, text_eq}
use ssac.Dict.{Dict, member}
use ssac.Parser.Types.{Binding, Sequence, ServiceFunc}
use ssac.Validator.Models.{model_parts, is_call}
use ssac.Generator.Imports.{add}

pub record ModelUsage : Type 0 where
  pub model_name : Text
  pub method_name : Text
  pub inputs : Dict Text
  pub result : Option Binding
  pub func_name : Text

abbrev usage_of : Text → Sequence → Option (Text × Text) → List ModelUsage
usage_of name seq none = []
usage_of name seq (some (model, method)) =
    record {
      model_name = model;
      method_name = method;
      inputs = seq.inputs;
      result = seq.result;
      func_name = name;
    }
    ∷ []

unfoldable pub sequence_usage : Text → Sequence → List ModelUsage
unfolding model_parts
sequence_usage name seq =
    if is_empty seq.model || is_call seq.type || not (is_empty seq.package_name)
    then []
    else usage_of name seq (model_parts seq.model)

unfoldable pub function_usages : Text → List Sequence → List ModelUsage
unfolding sequence_usage
function_usages name [] = []
function_usages name (seq ∷ seqs) = sequence_usage name seq ++ function_usages name seqs

-- `collectModelUsages`
unfoldable pub collect_model_usages : List ServiceFunc → List ModelUsage
unfolding function_usages
collect_model_usages [] = []
collect_model_usages (sf ∷ funcs) =
    function_usages sf.name sf.sequences ++ collect_model_usages funcs

-- `modelNames`: the keys of the map, in the order of their first use
unfoldable pub model_names : List Text → List ModelUsage → List Text
unfolding member
model_names seen [] = seen
model_names seen (u ∷ us) = model_names (add u.model_name seen) us

-- `usedMethods`, before it is sorted
unfoldable pub used_methods : Text → List Text → List ModelUsage → List Text
unfolding text_eq member
used_methods model seen [] = seen
used_methods model seen (u ∷ us) =
    used_methods model (if text_eq u.model_name model then add u.method_name seen else seen) us

-- `methodMap[key]`: the first use of a method
unfoldable pub first_usage : Text → Text → List ModelUsage → Option ModelUsage
unfolding text_eq
first_usage model method [] = none
first_usage model method (u ∷ us) =
    let rest = first_usage model method us in
    if text_eq u.model_name model && text_eq u.method_name method then some u else rest
