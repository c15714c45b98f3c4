-- ===== src/Generator/Loop/Scope/Heads.antt =====
-- Each statement that a template can begin with, where it keeps to the rules on declared names.
use ssac.Base.{
  ◌≡◌, refl, Bool, true, false, not, ◌||◌, List, [], ◌∷◌, ◌++◌, if◌then◌else◌, arith, Bool-cases,
  inl, inr,
}
use ssac.Text.{Text, codes, text_eq}
use ssac.Text.Cut.{text_eq_iff}
use ssac.Dict.{member}
use ssac.Generator.Statements.{Stmt, plain, in_if}
use ssac.Generator.Loop.Scope.{
  any_new, all_known, no_repeats, admits_head, admits, declared_behind, taken,
}

-- What the names tracked at a place are, against those declared there.
pub record Agrees (used outer : List Text) (err : Bool) (tracked scope : List Text) : Type 0 where
  pub err_known : err ≡ member (codes "err") scope
  -- a result that is used and tracked is declared
  pub used_declared :
      (n : Text) → member n tracked ≡ true → member n used ≡ true → member n scope ≡ true
  -- what is declared is tracked, or had its name from elsewhere
  pub accounted :
      (n : Text) → member n scope ≡ true → (member n tracked || member n (taken outer)) ≡ true
  -- behind any result, `err` is declared
  pub err_behind_result : (n : Text) → member n tracked ≡ true → err ≡ true

-- A statement keeps to the rules, and the agreement holds behind it.
pub record Goes (used outer scope : List Text) (s : Stmt) (err : Bool) (tracked : List Text)
    : Type 0 where
  pub is_admitted : admits scope s ≡ true
  pub agreement : Agrees used outer err tracked (declared_behind scope s)

-- What stands behind a result's name.
abbrev pub behind_result : Bool → List Text
behind_result total = if total then codes "total" ∷ codes "err" ∷ [] else codes "err" ∷ []

module _ {used outer : List Text} where
  -- Declaring `err` where it is not.
  with_err :
      {tracked scope : List Text}
      → Agrees used outer false tracked scope
      → Agrees used outer true tracked (codes "err" ∷ scope)
  unfolding member text_eq
  with_err {tracked} {scope} h = record {
    err_known = refl;
    used_declared = λ n t u. ground (arith, h.used_declared n t u);
    accounted = λ n t. ground (arith, h.accounted n);
    err_behind_result = λ n t. refl;
  }

  pub err-Goes :
      (err : Bool) {tracked scope : List Text}
      → Agrees used outer err tracked scope
      → Goes used outer scope
          (plain (record { names = codes "err" ∷ []; defines = not err }))
          true
          tracked
  unfolding admits admits_head any_new all_known no_repeats declared_behind member text_eq
  err-Goes true h = record { is_admitted = ground (arith, h.err_known); agreement = h }
  err-Goes false h = record { is_admitted = ground (arith, h.err_known); agreement = with_err h }

  -- In the head of an `if`.
  pub if-Goes :
      (err : Bool) {tracked scope : List Text}
      → Agrees used outer err tracked scope
      → err ≡ true
      → Goes used outer scope
          (in_if (record { names = codes "_" ∷ codes "err" ∷ []; defines = not err }))
          err
          tracked
  unfolding admits admits_head any_new all_known no_repeats declared_behind member text_eq
  if-Goes true h e = record { is_admitted = ground (arith, h.err_known); agreement = h }
  if-Goes false h e = cc

  -- A result that is not used is tracked, though its name is not declared.
  track_unused :
      (x : Text) {tracked scope : List Text}
      → Agrees used outer true tracked scope
      → member x used ≡ false
      → Agrees used outer true (x ∷ tracked) scope
  unfolding member
  track_unused x h u = record {
    err_known = h.err_known;
    used_declared = λ n t v. grind (arith, text_eq_iff x n, h.used_declared n);
    accounted = λ n t. ground (arith, h.accounted n);
    err_behind_result = λ n t. refl;
  }

  with_blank :
      {tracked scope : List Text}
      → Agrees used outer true tracked scope
      → Agrees used outer true tracked (codes "_" ∷ scope)
  unfolding member text_eq
  with_blank h = record {
    err_known = h.err_known;
    used_declared = λ n t v. ground (arith, h.used_declared n);
    accounted = λ n t. ground (arith, h.accounted n);
    err_behind_result = λ n t. refl;
  }

  pub unused-Goes :
      (x : Text) (err : Bool) {tracked scope : List Text}
      → Agrees used outer err tracked scope
      → member x used ≡ false
      → Goes used outer scope
          (plain (record {
            names = codes "_" ∷ codes "err" ∷ [];
            defines = if err || member x tracked then false else true;
          }))
          true
          (x ∷ tracked)
  unfolding admits admits_head any_new all_known no_repeats declared_behind member text_eq
  unused-Goes x true h u = record {
    is_admitted = ground (arith, h.err_known);
    agreement = track_unused x h u;
  }
  unused-Goes x false {tracked} {scope} h u = elim (Bool-cases (member x tracked)) [
    | inl e ↦ cc (h.err_behind_result x e)
    | inr e ↦ rw e (record {
      is_admitted = ground (arith, h.err_known);
      agreement = track_unused x (with_blank (with_err h)) u;
    })
  ]

  -- A result that is used and has been tracked: `=`
  pub again-Goes :
      (x : Text) (err : Bool) {tracked scope : List Text}
      → Agrees used outer err tracked scope
      → member x used ≡ true
      → member x tracked ≡ true
      → Goes used outer scope
          (plain (record { names = x ∷ codes "err" ∷ []; defines = false }))
          true
          (x ∷ tracked)
  unfolding admits admits_head all_known declared_behind member
  again-Goes x err {tracked} {scope} h u t = record {
    is_admitted = ground (arith, h.err_known, h.err_behind_result x t, h.used_declared x t u);
    agreement = record {
      err_known = ground (arith, h.err_known, h.err_behind_result x t);
      used_declared = λ n r v. grind (arith, text_eq_iff x n, h.used_declared n);
      accounted = λ n r. ground (arith, h.accounted n);
      err_behind_result = λ n r. refl;
    };
  }

  with_result :
      (x : Text) (total : Bool) (err : Bool) {tracked scope : List Text}
      → Agrees used outer err tracked scope
      → Agrees used outer true (x ∷ tracked) (x ∷ behind_result total ++ scope)
  unfolding member text_eq
  with_result x true err h = record {
    err_known = ground arith;
    used_declared = λ n t v. ground (arith, h.used_declared n);
    accounted = λ n t. ground (arith, h.accounted n);
    err_behind_result = λ n t. refl;
  }
  with_result x false err h = record {
    err_known = ground arith;
    used_declared = λ n t v. ground (arith, h.used_declared n);
    accounted = λ n t. ground (arith, h.accounted n);
    err_behind_result = λ n t. refl;
  }

  -- A result that is used and new: `:=`, with a total or without one
  pub new-Goes :
      (x : Text) (total : Bool) (err : Bool) {tracked scope : List Text}
      → Agrees used outer err tracked scope
      → member x tracked ≡ false
      → member x (taken outer) ≡ false
      → Goes used outer scope
          (plain (record { names = x ∷ behind_result total; defines = true }))
          true
          (x ∷ tracked)
  unfolding admits admits_head any_new no_repeats declared_behind member text_eq
  new-Goes x true err h t k = record {
    is_admitted = ground (arith, h.accounted x);
    agreement = with_result x true err h;
  }
  new-Goes x false err h t k = record {
    is_admitted = ground (arith, h.accounted x);
    agreement = with_result x false err h;
  }
