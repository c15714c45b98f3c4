-- ===== src/Generator/Loop/Scope/Kept.antt =====
-- The loop over the sequences keeps to Go's rules on declared names.
use ssac.Base.{
  ℕ, ◌≡◌, refl, Bool, true, false, not, ◌&&◌, ◌||◌, List, [], ◌∷◌, Option, none, some, arith,
  Bool-cases, inl, inr, ok, Returns-ok,
}
use ssac.Text.{Text, codes, text_eq}
use ssac.Dict.{member}
use ssac.Parser.Types.{
  SeqType, get, post, put, delete, auth, call, publish, Binding, Sequence, ServiceFunc,
}
use ssac.Validator.Symbols.{SymbolTable}
use ssac.Generator.Go.{Tools}
use ssac.Generator.Imports.{has_write_sequence}
use ssac.Generator.Params.{RequestParam}
use ssac.Generator.Helpers.{collect_used_vars, has_conversion_err}
use ssac.Generator.Tracking.{Tracking, declare_result, err_behind, track}
use ssac.Generator.Data.{TemplateData, build_template_data}
use ssac.Generator.Statements.{Mode, http, queue, Stmt, stmt_of}
use ssac.Generator.Templates.{execute_template, with_rest, rest_of}
use ssac.Generator.Loop.{
  GenError, Piece, step, Loop, Frame, commits_now, commit_first, last_commit, final_data, next_loop,
  frame, start, pieces, http_pieces, subscribe_pieces,
}
use ssac.Generator.Loop.Rounds.{pieces-Returns}
use ssac.Generator.Loop.Scope.{
  admits, declared_behind, admits_all, fits, is_if_scoped, declares_err, result_fits, gives_total,
}
use ssac.Generator.Loop.Scope.Heads.{Agrees, Goes}
use ssac.Generator.Loop.Scope.Made.{Given, final_data-Given}
use ssac.Generator.Loop.Scope.Kinds.{plain_kind-Goes, result_kind-Goes}

-- A template that is executed begins with a statement.
execute_template-stmt :
    (m : Mode) (t : SeqType) (d : TemplateData) (text : Text)
    → execute_template m t d ≡ some text
    → (s : Stmt) × (stmt_of m t d ≡ some s)
unfolding execute_template
execute_template-stmt m t d text h =
    elim (stmt_of m t d)
        as (λ r. (with_rest (rest_of m t d) r ≡ some text) → (s : Stmt) × (r ≡ some s)) [
          | none ↦ λ e. cc
          | some s ↦ λ e. (s, refl)
        ]
      h

kind-Goes :
    (used outer scope : List Text) (tr : Tracking) (d : TemplateData) (m : Mode) (t : SeqType)
    (r : Option Binding) (total : Bool) (s : Stmt)
    → Agrees used outer tr.err_declared tr.declared scope
    → Given used t r total tr d
    → result_fits used outer tr.declared t total r ≡ true
    → (tr.err_declared || not (is_if_scoped t r)) ≡ true
    → stmt_of m t d ≡ some s
    → Goes used outer scope s (declares_err t r || tr.err_declared) (declare_result r tr.declared)
kind-Goes used outer scope tr d m t none total s h g f i e =
    plain_kind-Goes tr d h m t total s g i e
kind-Goes used outer scope tr d m t (some r) total s h g f i e =
    result_kind-Goes tr d h m t r total s g f e

-- The generator's own tracking of `err`, in sequences that keep to the rules.
err_behind-declares :
    (t : SeqType) (r : Option Binding) (err : Bool)
    → (err || not (is_if_scoped t r)) ≡ true
    → err_behind t err ≡ (declares_err t r || err)
unfolding err_behind declares_err is_if_scoped
err_behind-declares get r err h = refl
err_behind-declares post r err h = refl
err_behind-declares put r err h = refl
err_behind-declares delete r err h = refl
err_behind-declares publish r err h = refl
err_behind-declares call none err h = ground arith
err_behind-declares call (some r) err h = refl
err_behind-declares auth r err h = ground arith
err_behind-declares _ r err h = refl

-- What the theorem asks of a place in the loop.
unfoldable Asked : Frame → List Text → Loop → List Sequence → List Piece → Type 0
unfolding fits admits_all
Asked f outer l seqs ps =
    (scope : List Text)
    → Agrees f.used outer l.tracking.err_declared l.tracking.declared scope
    → (not f.use_tx || l.tracking.err_declared) ≡ true
    → fits f.used outer l.tracking.declared l.tracking.err_declared seqs ≡ true
    → admits_all f.mode scope ps ≡ true

step-admits_all :
    (m : Mode) (scope : List Text) (t : SeqType) (d : TemplateData) (text : Text) (ps : List Piece)
    (s : Stmt)
    → stmt_of m t d ≡ some s
    → admits scope s ≡ true
    → admits_all m (declared_behind scope s) ps ≡ true
    → admits_all m scope (step t d text ∷ ps) ≡ true
unfolding admits_all
step-admits_all m scope t d text ps s e a k = rw (e, a) k

commit_first-admits_all :
    (m : Mode) (scope : List Text) (c : Bool) (ps : List Piece)
    → (c ≡ true → member (codes "err") scope ≡ true)
    → admits_all m scope ps ≡ true
    → admits_all m scope (commit_first c ps) ≡ true
unfolding admits_all
commit_first-admits_all m scope true ps e k = rw (e refl) k
commit_first-admits_all m scope false ps e k = k

at_start :
    (used outer : List Text) (err : Bool)
    → err ≡ member (codes "err") outer
    → Agrees used outer err [] outer
unfolding member
at_start used outer err tracked = record {
  err_known = tracked;
  used_declared = λ n t u. cc;
  accounted = λ n t. ground arith;
  err_behind_result = λ n t. cc;
}

module _ (t : Tools) (f : Frame) (outer : List Text) where
  end-Asked : (l : Loop) → Asked f outer l [] (last_commit f l)
  unfolding Asked admits_all
  end-Asked l scope h k e = elim (Bool-cases (f.use_tx && not l.committed)) [
    | inl b ↦ rw b (ground (arith, h.err_known))
    | inr b ↦ rw b refl
  ]

  round-Asked :
      (l : Loop) (i : ℕ) (seq : Sequence) (seqs : List Sequence) (d : TemplateData) (text : Text)
      (ps : List Piece)
      → build_template_data t seq l.tracking f.types f.table f.use_tx {E = GenError} ≡ ok d
      → execute_template f.mode seq.type (final_data f l seq d) ≡ some text
      → Asked f outer (next_loop f l seq d) seqs ps
      → Asked f outer l
          (seq ∷ seqs)
          (commit_first (commits_now f l seq.type) (step seq.type (final_data f l seq d) text ∷ ps))
  unfolding Asked fits track
  round-Asked l i seq seqs d text ps made printed next scope h k e =
      let (s, begins) = execute_template-stmt f.mode seq.type (final_data f l seq d) text printed in
      let scoped : (l.tracking.err_declared || not (is_if_scoped seq.type seq.result)) ≡ true =
        ground arith in
      let tracked = err_behind-declares seq.type seq.result l.tracking.err_declared scoped in
      let goes =
        kind-Goes f.used outer scope l.tracking _ f.mode seq.type seq.result (gives_total seq) s h
          (final_data-Given t f l seq d made) (ground arith) scoped begins in
      commit_first-admits_all f.mode scope (commits_now f l seq.type) _
        (λ c. ground (arith, h.err_known))
        (step-admits_all f.mode scope seq.type _ text ps s begins goes.is_admitted (
          next (declared_behind scope s) (rw tracked goes.agreement) (rw tracked (ground arith))
            (rw tracked (ground arith))))

-- What is declared above the sequences of a queue handler.
abbrev pub names_above : Bool → List Text
names_above true = codes "tx" ∷ codes "err" ∷ codes "h" ∷ codes "ctx" ∷ codes "message" ∷ []
names_above false = codes "h" ∷ codes "ctx" ∷ codes "message" ∷ []

err-names_above : (writes : Bool) → writes ≡ member (codes "err") (names_above writes)
unfolding member text_eq
err-names_above true = refl
err-names_above false = refl

pieces-admits_all :
    (t : Tools) (m : Mode) (sf : ServiceFunc) (st : Option SymbolTable) (outer : List Text)
    (err : Bool) (ps : List Piece)
    → err ≡ member (codes "err") outer
    → (not (has_write_sequence sf.sequences) || err) ≡ true
    → fits (collect_used_vars sf.sequences []) outer [] err sf.sequences ≡ true
    → pieces t (frame m sf st) (start err) 0 sf.sequences ≡ ok ps
    → admits_all m outer ps ≡ true
unfolding Asked
pieces-admits_all t m sf st outer err ps tracked writes kept made =
    Returns-ok (Asked (frame m sf st) outer (start err) sf.sequences) _ ps made
      (pieces-Returns t (frame m sf st) (Asked (frame m sf st) outer)
        (end-Asked t (frame m sf st) outer) (round-Asked t (frame m sf st) outer) (start err) 0
        sf.sequences)
      outer (at_start _ outer err tracked) writes kept

-- When a HTTP handler's body is made, `err` is among the names declared above the sequences exactly
-- if `errDeclared` says so, and the sequences keep to the rules that `fits` lists, then every
-- statement that their templates begin with, and the commit, declare and assign as the Go compiler
-- asks: no `:=` without a new name, no `=` to an undeclared one.
pub http_pieces-admits_all :
    (t : Tools) (sf : ServiceFunc) (st : Option SymbolTable) (params : List RequestParam)
    (outer : List Text) (ps : List Piece)
    → (has_conversion_err params || has_write_sequence sf.sequences) ≡ member (codes "err") outer
    → fits (collect_used_vars sf.sequences []) outer [] (member (codes "err") outer) sf.sequences
      ≡ true
    → http_pieces t sf st params ≡ ok ps
    → admits_all http outer ps ≡ true
unfolding http_pieces
http_pieces-admits_all t sf st params outer ps tracked kept made =
    pieces-admits_all t http sf st outer
      (has_conversion_err params || has_write_sequence sf.sequences) ps tracked (ground arith)
      (rw tracked kept) made

-- When a queue handler's body is made and its sequences keep to the rules that `fits` lists, every
-- statement that their templates begin with, and the commit, declare and assign as the Go compiler
-- asks. The names above them are the receiver, the parameters and, if the function writes, the
-- transaction and `err`.
pub subscribe_pieces-admits_all :
    (t : Tools) (sf : ServiceFunc) (st : Option SymbolTable) (ps : List Piece)
    → fits
        (collect_used_vars sf.sequences [])
        (names_above (has_write_sequence sf.sequences))
        []
        (has_write_sequence sf.sequences)
        sf.sequences
      ≡ true
    → subscribe_pieces t sf st ≡ ok ps
    → admits_all queue (names_above (has_write_sequence sf.sequences)) ps ≡ true
unfolding subscribe_pieces
subscribe_pieces-admits_all t sf st ps kept made =
    pieces-admits_all t queue sf st (names_above (has_write_sequence sf.sequences))
      (has_write_sequence sf.sequences) ps (err-names_above (has_write_sequence sf.sequences))
      (ground arith) kept made
