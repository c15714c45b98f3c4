-- ===== src/Generator/Loop/Total.antt =====
-- What the validator accepts, the generator has code for: no template fails, and nothing panics.
use ssac.Base.{
  ℕ, ◌+◌, ◌≡◌, ◌≢◌, ◌⊎◌, inl, inr, refl, sym, ap, ◌∙◌, Bool, false, List, [], ◌∷◌, ◌++◌, Option,
  none, some, is_empty, Bool-cases, All, ok, bind-ok,
}
use ssac.Parser.Types.{SeqType, get, post, response, subscribe, other, Binding, Sequence}
use ssac.Validator.Symbols.{SymbolTable}
use ssac.Validator.Models.{is_call}
use ssac.Validator.Models.Parts.{model_parts-split}
use ssac.Validator.Required.Complete.{IsComplete, IsAccepted, IsModelName}
use ssac.Generator.Go.{Tools}
use ssac.Generator.Data.{
  TemplateData, ModelParts, parts_of_model, crud_parts, template_data, build_template_data,
}
use ssac.Generator.Statements.{Mode, http, queue, Stmt, stmt_of, result_stmt, print_stmt}
use ssac.Generator.Templates.{rest_of, execute_template}
use ssac.Generator.Loop.{
  GenError, Piece, Loop, Frame, final_data, or_failed, next_loop, last_commit, pieces,
}
use ssac.Generator.Loop.Scope.Made.{final_data-Given}

result_stmt-some :
    (d : TemplateData) (total : Bool) (r : Option Binding)
    → r ≢ none
    → (s : Stmt) × (result_stmt d total r ≡ some s)
unfolding result_stmt
result_stmt-some d total none h = absurd (h refl)
result_stmt-some d total (some r) h = (_, refl)

-- A complete sequence has a template that begins with a statement.
stmt_of-some :
    (m : Mode) (t : SeqType) (seq : Sequence) (d : TemplateData)
    → IsComplete t seq
    → d.result ≡ seq.result
    → (m ≡ http) ⊎ (t ≢ response)
    → (s : Stmt) × (stmt_of m t d ≡ some s)
unfolding stmt_of
stmt_of-some m get seq d h e k = result_stmt-some d d.has_total d.result (λ n. h.1 (sym e ∙ n))
stmt_of-some m post seq d h e k = result_stmt-some d false d.result (λ n. h.1 (sym e ∙ n))
stmt_of-some m subscribe seq d h e k = absurd h
stmt_of-some m (other t) seq d h e k = absurd h
stmt_of-some http response seq d h e k = (_, refl)
stmt_of-some queue response seq d h e (inl k) = cc
stmt_of-some queue response seq d h e (inr k) = absurd (k refl)
stmt_of-some m _ seq d h e k = (_, refl)

execute_template-some :
    (m : Mode) (t : SeqType) (d : TemplateData) (s : Stmt)
    → stmt_of m t d ≡ some s
    → execute_template m t d ≡ some (print_stmt s ++ rest_of m t d)
unfolding execute_template
execute_template-some m t d s e = rw e refl

first_answered :
    (m : Mode) (seq : Sequence) (seqs : List Sequence)
    → (m ≡ http) ⊎ All (λ (q : Sequence). q.type ≢ response) (seq ∷ seqs)
    → (m ≡ http) ⊎ (seq.type ≢ response)
first_answered m seq seqs (inl e) = inl e
first_answered m seq seqs (inr h) = inr h.0

others_answered :
    (m : Mode) (seq : Sequence) (seqs : List Sequence)
    → (m ≡ http) ⊎ All (λ (q : Sequence). q.type ≢ response) (seq ∷ seqs)
    → (m ≡ http) ⊎ All (λ (q : Sequence). q.type ≢ response) seqs
others_answered m seq seqs (inl e) = inl e
others_answered m seq seqs (inr h) = inr h.1

module _ (t : Tools) where
  -- The parts of a model that is absent, or named as the validator asks.
  parts_of_model-ok :
      (st : Option SymbolTable) (use_tx : Bool) (seq : Sequence)
      → (seq.model ≢ [] → IsModelName seq.model)
      → (parts : ModelParts) × (parts_of_model t st use_tx seq {E = GenError} ≡ ok parts)
  unfolding parts_of_model crud_parts
  parts_of_model-ok st use_tx seq h = elim (Bool-cases (is_empty seq.model)) [
    | inl e ↦ rw e (_, refl)
    | inr e ↦ elim (Bool-cases (is_call seq.type)) [
      | inl k ↦ rw (e, k) (_, refl)
      | inr k ↦
          let n = h (λ z. cc) in
          rw (e, k, model_parts-split seq.model n.first n.second n.no_dot n.splits) (_, refl)
    ]
  ]

  build_template_data-ok :
      (f : Frame) (l : Loop) (seq : Sequence)
      → (seq.model ≢ [] → IsModelName seq.model)
      → (d : TemplateData) × (build_template_data t seq l.tracking f.types f.table f.use_tx
            {E = GenError}
          ≡ ok d)
  unfolding build_template_data
  build_template_data-ok f l seq h =
      let (parts, e) = parts_of_model-ok f.table f.use_tx seq h in
      (template_data t seq l.tracking f.types f.table parts, bind-ok _ _ parts _ e refl)

  -- The loop over accepted sequences that the mode answers ends with pieces.
  pub pieces-ok :
      (f : Frame) (l : Loop) (i : ℕ) (seqs : List Sequence)
      → All IsAccepted seqs
      → (f.mode ≡ http) ⊎ All (λ (seq : Sequence). seq.type ≢ response) seqs
      → (ps : List Piece) × (pieces t f l i seqs ≡ ok ps)
  unfolding pieces
  pieces-ok f l i [] h k = (last_commit f l, refl)
  pieces-ok f l i (seq ∷ seqs) h k =
      let (d, made) = build_template_data-ok f l seq h.0.1 in
      let given = final_data-Given t f l seq d made in
      let (s, begins) =
        stmt_of-some f.mode seq.type seq (final_data f l seq d) h.0.0 given.its_result
          (first_answered f.mode seq seqs k) in
      let (ps, rest) =
        pieces-ok f (next_loop f l seq d) (i + 1) seqs h.1 (others_answered f.mode seq seqs k) in
      (
        _,
        bind-ok _ _ d _ made (
            bind-ok _ _ _ _
              (ap (or_failed i seq.type) (execute_template-some f.mode seq.type _ s begins))
              (bind-ok _ _ ps _ rest refl)),
      )
