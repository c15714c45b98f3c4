-- ===== src/Validator/Stale.antt =====
-- validator/validator.go, `validateStaleResponse`: a value that was read before its model was changed,
-- and not read again, should not stand in the response.
use ssac.Base.{
  ℕ, ◌+◌, Bool, true, false, List, [], ◌∷◌, ◌++◌, Option, none, some, flat_map, if◌then◌else◌,
}
use ssac.Text.{Text, codes}
use ssac.Dict.{Dict, lookup, put}
use ssac.Parser.Types.{SeqType, Binding, Sequence, ServiceFunc}
use ssac.Validator.Errors.{stale_response, ValidationError, ErrCtx, at, warn, when}
use ssac.Validator.Flow.{root_var}

-- `getVars` and `mutated`
pub record Freshness : Type 0 where
  pub get_vars : Dict Text
  pub mutated : Dict Bool

-- `mutated[modelName]`, false for a missing key
abbrev pub is_true : Option Bool → Bool
is_true none = false
is_true (some b) = b

-- The model that is read: `strings.SplitN(seq.Model, ".", 2)[0]`, which is the text up to its first dot.
abbrev pub model_name : Text → Text
model_name model = root_var model

abbrev pub read_model : Freshness → Text → Option Binding → Freshness
read_model st model none = st
read_model st [] (some r) = st
read_model st (c ∷ s) (some r) = record {
  get_vars = put r.name (model_name (c ∷ s)) st.get_vars;
  mutated = put (model_name (c ∷ s)) false st.mutated;
}

abbrev pub change_model : Freshness → Text → Freshness
change_model st [] = st
change_model st (c ∷ s) = record st { mutated = put (model_name (c ∷ s)) true st.mutated }

-- The variables behind one sequence.
unfoldable pub freshness_step : SeqType → Freshness → Sequence → Freshness
freshness_step SeqType.get st seq = read_model st seq.model seq.result
freshness_step SeqType.put st seq = change_model st seq.model
freshness_step SeqType.delete st seq = change_model st seq.model
freshness_step _ st seq = st

stale_model : Freshness → Option Text → Bool
stale_model st none = false
stale_model st (some m) = is_true (lookup m st.mutated)

-- `modelName, ok := getVars[ref]; ok && mutated[modelName]`
unfoldable pub is_stale : Freshness → Text → Bool
unfolding stale_model
is_stale st ref = stale_model st (lookup ref st.get_vars)

abbrev text_or_empty : Option Text → Text
text_or_empty none = []
text_or_empty (some t) = t

unfoldable pub stale_field : ErrCtx → Freshness → Text × Text → List ValidationError
stale_field c st (field, val) = when (is_stale st (root_var val)) (
    warn c (codes "@response")
      (stale_response (root_var val) field (text_or_empty (lookup (root_var val) st.get_vars))))

unfoldable pub stale_errors : SeqType → ErrCtx → Freshness → Sequence → List ValidationError
unfolding stale_field is_stale
stale_errors SeqType.response c st seq =
    if seq.suppress_warn then [] else flat_map (stale_field c st) seq.fields
stale_errors _ c st seq = []

unfoldable pub stale_from : ServiceFunc → ℕ → Freshness → List Sequence → List ValidationError
stale_from sf i st [] = []
stale_from sf i st (seq ∷ seqs) =
    let c : ErrCtx = record { file_name = sf.file_name; func_name = sf.name; seq_index = at i } in
    stale_errors seq.type c st seq ++ stale_from sf (i + 1) (freshness_step seq.type st seq) seqs

abbrev pub nothing_read : Freshness
nothing_read = record { get_vars = []; mutated = [] }

unfoldable pub validate_stale_response : ServiceFunc → List ValidationError
unfolding stale_from stale_errors freshness_step
validate_stale_response sf = stale_from sf 0 nothing_read sf.sequences
