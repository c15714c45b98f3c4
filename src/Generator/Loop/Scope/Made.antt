-- ===== src/Generator/Loop/Scope/Made.antt =====
-- What the template of a sequence is given, as far as its first statement depends on it.
use ssac.Base.{
  ◌≡◌, refl, sym, subst, Bool, true, false, ◌&&◌, ◌||◌, List, Option, arith, Bool-cases, inl, inr,
  ok, bind_eq-Returns, ok-Returns, Returns-ok,
}
use ssac.Text.{Text}
use ssac.Dict.{Dict}
use ssac.Parser.Types.{SeqType, get, Binding, Sequence}
use ssac.Validator.Symbols.{SymbolTable}
use ssac.Validator.Rules.{is_response}
use ssac.Generator.Go.{Tools}
use ssac.Generator.Tracking.{Tracking, reassigns, first_err_of}
use ssac.Generator.Data.{
  TemplateData, ModelParts, parts_of_model, template_data, build_template_data,
}
use ssac.Generator.Loop.{GenError, Loop, Frame, is_unused, drop_unused, response_total, final_data}
use ssac.Generator.Loop.Scope.{is_get, gives_total}

-- What the first statement depends on.
pub record Given (used : List Text) (t : SeqType) (r : Option Binding) (total : Bool)
    (tr : Tracking) (d : TemplateData) : Type 0 where
  pub its_first_err : d.first_err ≡ first_err_of t r tr.err_declared
  pub its_result : d.result ≡ r
  pub its_unused : d.unused ≡ is_unused used r
  pub its_re_assign : d.re_assign ≡ (is_unused used r && tr.err_declared || reassigns r tr.declared)
  pub its_total : (is_get t && d.has_total) ≡ total

abbrev pub GivenFor : List Text → Sequence → Tracking → TemplateData → Type 0
GivenFor used seq = Given used seq.type seq.result (gives_total seq)

module _ (t : Tools) (seq : Sequence) (tr : Tracking) (types : Dict Text)
    (st : Option SymbolTable) where
  -- `buildTemplateData` gives the data that the rest of the function computes.
  pub build_template_data-made :
      (use_tx : Bool) (d : TemplateData)
      → build_template_data t seq tr types st use_tx {E = GenError} ≡ ok d
      → (parts : _) × (d ≡ template_data t seq tr types st parts)
  unfolding build_template_data
  build_template_data-made use_tx d made =
      Returns-ok (λ e. (parts : _) × (e ≡ template_data t seq tr types st parts)) _ d made
        (bind_eq-Returns _ (parts_of_model t st use_tx seq {E = GenError}) _
          (λ parts h. ok-Returns GenError _ _ (parts, refl)))

response-no_get : (t : SeqType) → is_response t ≡ true → is_get t ≡ false
response-no_get get h = cc
response-no_get _ h = refl

-- The response's total is no other kind's.
response_total-Given :
    (used : List Text) (seq : Sequence) (tr : Tracking) (total : Bool) (d : TemplateData)
    → GivenFor used seq tr d
    → GivenFor used seq tr (response_total seq.type total d)
unfolding response_total
response_total-Given used seq tr total d h = elim (Bool-cases (is_response seq.type)) [
  | inl e ↦ rw e (record {
    its_first_err = h.its_first_err;
    its_result = h.its_result;
    its_unused = h.its_unused;
    its_re_assign = h.its_re_assign;
    its_total = ground (arith, response-no_get seq.type e, h.its_total);
  })
  | inr e ↦ rw e h
]

drop_unused-Given :
    (t : Tools) (f : Frame) (seq : Sequence) (tr : Tracking) (parts : ModelParts)
    → GivenFor f.used seq tr
        (drop_unused f.used seq.result (template_data t seq tr f.types f.table parts))
unfolding drop_unused template_data gives_total
drop_unused-Given t f seq tr parts = elim (Bool-cases (is_unused f.used seq.result)) [
  | inl e ↦ rw e (record {
    its_first_err = refl;
    its_result = refl;
    its_unused = sym e;
    its_re_assign = rw e refl;
    its_total = refl;
  })
  | inr e ↦ rw e (record {
    its_first_err = refl;
    its_result = refl;
    its_unused = sym e;
    its_re_assign = rw e refl;
    its_total = refl;
  })
]

-- So the loop gives the template what the sequence, and what is declared above it, ask for.
pub final_data-Given :
    (t : Tools) (f : Frame) (l : Loop) (seq : Sequence) (d : TemplateData)
    → build_template_data t seq l.tracking f.types f.table f.use_tx {E = GenError} ≡ ok d
    → GivenFor f.used seq l.tracking (final_data f l seq d)
unfolding final_data
final_data-Given t f l seq d made =
    let (parts, from) = build_template_data-made t seq l.tracking f.types f.table f.use_tx d made in
    response_total-Given f.used seq l.tracking _ _ (
      subst (λ e. GivenFor f.used seq l.tracking (drop_unused f.used seq.result e)) (sym from)
        (drop_unused-Given t f seq l.tracking parts))
