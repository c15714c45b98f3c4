-- ===== src/Generator/Loop/Scope/Kinds.antt =====
-- The first statement of each kind of sequence keeps to the rules on declared names.
use ssac.Base.{
  some_inj, ◌≡◌, refl, sym, subst, Bool, true, false, not, ◌&&◌, ◌||◌, List, [], ◌∷◌, none, some,
  if◌then◌else◌, arith, Bool-cases, inl, inr,
}
use ssac.Text.{Text, codes}
use ssac.Dict.{member}
use ssac.Parser.Types.{
  SeqType, get, post, put, delete, empty, exists, state, auth, call, publish, response, subscribe,
  other, Binding,
}
use ssac.Generator.Tracking.{Tracking, first_err_of}
use ssac.Generator.Data.{TemplateData}
use ssac.Generator.Statements.{
  Mode, http, queue, Stmt, plain, in_if, stmt_of, result_stmt, call_stmt, assigned,
}
use ssac.Generator.Loop.Scope.{
  admits, declared_behind, taken, is_if_scoped, declares_err, result_fits,
}
use ssac.Generator.Loop.Scope.Heads.{
  behind_result, Agrees, Goes, err-Goes, if-Goes, unused-Goes, again-Goes, new-Goes,
}
use ssac.Generator.Loop.Scope.Made.{Given}

module _ (used outer declared : List Text) (t : SeqType) (r : Binding) (total : Bool)
    (f : result_fits used outer declared t total (some r) ≡ true) where
  name_fits : member r.name (taken outer) ≡ false
  unfolding result_fits
  name_fits = ground (arith, f)

  unused_total : member r.name used ≡ false → false ≡ total
  unfolding result_fits
  unused_total e = ground (arith, f)

  no_total : member r.name declared ≡ true → false ≡ total
  unfolding result_fits
  no_total g = ground (arith, f)

module _ {used outer scope : List Text} (tr : Tracking) (d : TemplateData)
    (h : Agrees used outer tr.err_declared tr.declared scope) where
  assigned_as : Text → Bool → Bool → Stmt
  assigned_as x defines total =
      plain (record { names = x ∷ behind_result total; defines = defines })

  -- The statement that assigns a result.
  assigned-Goes :
      (t : SeqType) (r : Binding) (total : Bool)
      → d.unused ≡ not (member r.name used)
      → d.re_assign ≡ (not (member r.name used) && tr.err_declared || member r.name tr.declared)
      → result_fits used outer tr.declared t total (some r) ≡ true
      → Goes used outer scope (plain (assigned d r total)) true (r.name ∷ tr.declared)
  unfolding assigned_as
  assigned-Goes t r total u a f = elim (Bool-cases (member r.name used)) [
    | inl e ↦ elim (Bool-cases (member r.name tr.declared)) [
      | inl g ↦
          rw (u, a, e, g)
            (subst
              (λ b. Goes used outer scope (assigned_as r.name false b) true (r.name ∷ tr.declared))
              (no_total used outer tr.declared t r total f g)
              (again-Goes r.name tr.err_declared h e g))
      | inr g ↦
          rw (u, a, e, g)
            (new-Goes r.name total tr.err_declared h g
              (name_fits used outer tr.declared t r total f))
    ]
    | inr e ↦
        rw (u, a, e)
          (subst
            (λ b.
              Goes used outer scope
                (assigned_as (codes "_")
                  (if tr.err_declared || member r.name tr.declared then false else true) b)
                true (r.name ∷ tr.declared))
            (unused_total used outer tr.declared t r total f e)
            (unused-Goes r.name tr.err_declared h e))
  ]

  some-Goes :
      {err : Bool} {tracked : List Text} (s s' : Stmt)
      → some s ≡ some s'
      → Goes used outer scope s err tracked
      → Goes used outer scope s' err tracked
  some-Goes {err} {tracked} s s' e g =
      subst (λ x. Goes used outer scope x err tracked) (some_inj _ _ e) g

  err_head-Goes :
      d.first_err ≡ not tr.err_declared
      → Goes used outer scope
          (plain (record { names = codes "err" ∷ []; defines = d.first_err }))
          true
          tr.declared
  err_head-Goes e = rw e (err-Goes tr.err_declared h)

  blank_head-Goes :
      d.first_err ≡ not tr.err_declared
      → tr.err_declared ≡ true
      → Goes used outer scope
          (in_if (record { names = codes "_" ∷ codes "err" ∷ []; defines = d.first_err }))
          tr.err_declared
          tr.declared
  blank_head-Goes e k = rw e (if-Goes tr.err_declared h k)

  -- A sequence without a result.
  pub plain_kind-Goes :
      (m : Mode) (t : SeqType) (total : Bool) (s : Stmt)
      → Given used t none total tr d
      → (tr.err_declared || not (is_if_scoped t none)) ≡ true
      → stmt_of m t d ≡ some s
      → Goes used outer scope s (declares_err t none || tr.err_declared) tr.declared
  unfolding is_if_scoped stmt_of declares_err result_stmt call_stmt admits declared_behind
      first_err_of
  plain_kind-Goes m get total s g i e = cc (rw g.its_result at e)
  plain_kind-Goes m post total s g i e = cc (rw g.its_result at e)
  plain_kind-Goes m put total s g i e = some-Goes _ s e (err_head-Goes g.its_first_err)
  plain_kind-Goes m delete total s g i e = some-Goes _ s e (err_head-Goes g.its_first_err)
  plain_kind-Goes m empty total s g i e =
      some-Goes _ s e (record { is_admitted = refl; agreement = h })
  plain_kind-Goes m exists total s g i e =
      some-Goes _ s e (record { is_admitted = refl; agreement = h })
  plain_kind-Goes m state total s g i e =
      some-Goes _ s e (record { is_admitted = refl; agreement = h })
  plain_kind-Goes m auth total s g i e =
      some-Goes _ s e (blank_head-Goes g.its_first_err (ground arith))
  plain_kind-Goes m call total s g i e =
      some-Goes _ s (rw g.its_result at e) (blank_head-Goes g.its_first_err (ground arith))
  plain_kind-Goes m publish total s g i e = some-Goes _ s e (err_head-Goes g.its_first_err)
  plain_kind-Goes http response total s g i e =
      some-Goes _ s e (record { is_admitted = refl; agreement = h })
  plain_kind-Goes queue response total s g i e = cc
  plain_kind-Goes m subscribe total s g i e = cc
  plain_kind-Goes m (other k) total s g i e = cc

  -- A sequence with one.
  pub result_kind-Goes :
      (m : Mode) (t : SeqType) (r : Binding) (total : Bool) (s : Stmt)
      → Given used t (some r) total tr d
      → result_fits used outer tr.declared t total (some r) ≡ true
      → stmt_of m t d ≡ some s
      → Goes used outer scope s (declares_err t (some r) || tr.err_declared) (r.name ∷ tr.declared)
  unfolding stmt_of declares_err result_stmt call_stmt result_fits
  result_kind-Goes m get r total s g f e =
      some-Goes _ s (rw (g.its_result, g.its_total) at e)
        (assigned-Goes get r total g.its_unused g.its_re_assign f)
  result_kind-Goes m post r total s g f e = some-Goes _ s (rw g.its_result at e) (
      assigned-Goes post r false g.its_unused g.its_re_assign (
        subst (λ b. result_fits used outer tr.declared post b (some r) ≡ true) (sym g.its_total) f))
  result_kind-Goes m call r total s g f e = some-Goes _ s (rw g.its_result at e) (
      assigned-Goes call r false g.its_unused g.its_re_assign (
        subst (λ b. result_fits used outer tr.declared call b (some r) ≡ true) (sym g.its_total) f))
  result_kind-Goes m _ r total s g f e = cc
