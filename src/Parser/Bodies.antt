-- ===== src/Parser/Bodies.antt =====
-- Each directive's body is read back: what stands behind the tag and its blank.
use ssac.Base.{
  ℕ, ◌≡◌, ◌≢◌, refl, ap, ap₂, ◌∙◌, true, false, [], ◌∷◌, ◌++◌, Option, none, some, arith, ok,
}
use ssac.Text.{Text, is_space, trim_space}
use ssac.Text.Cut.{Free, Free-append, index-Free, take-length, drop-suc-length}
use ssac.Text.Trim.{
  StartsTight, EndsTight, IsTight, trim_space-tight, trim_space-blank-tight,
  trim_space-blank_behind, EndsTight-append, EndsTight-cons, StartsTight-append, IsTight-append,
}
use ssac.Dict.{Dict}
use ssac.Parser.Types.{SeqType, blank, Binding}
use ssac.Parser.Scan.{parse_result}
use ssac.Parser.Line.{crud_call, crud_bound, crud_sides, crud_split, parse_crud}
use ssac.Parser.Syntax.{
  is_word_char, IsWord, IsBlock, TypeExpr, plain, slice, wrapped, print_type, IsType, binding,
  ModelRef, method, packaged, model_text, package_text, print_model,
}
use ssac.Parser.Words.{
  word-Free, IsWord-IsTight, IsModelRef, split_package_prefix-print, parse_result-print,
  print_type-IsTight,
}
use ssac.Parser.Calls.{print_call, parse_call_expr_inputs-print, print_call-IsTight}
use ssac.Parser.Directive.{print_bound, crud}

model-StartsTight : (m : ModelRef) → IsModelRef m → StartsTight (print_model m)
model-StartsTight (method m f) h = StartsTight-append m (b'.' ∷ f) (IsWord-IsTight m h.0).0
model-StartsTight (packaged p m f) h =
    StartsTight-append p (b'.' ∷ (m ++ b'.' ∷ f)) (IsWord-IsTight p h.0).0

model-Free :
    (c : ℕ) (m : ModelRef)
    → is_word_char c ≡ false
    → b'.' ≢ c
    → IsModelRef m
    → Free c (print_model m)
model-Free c (method m f) w dot h =
    Free-append c m (b'.' ∷ f) (word-Free c m w h.0.1) (dot, word-Free c f w h.1.1)
model-Free c (packaged p m f) w dot h =
    Free-append c p (b'.' ∷ (m ++ b'.' ∷ f)) (word-Free c p w h.0.1)
      (dot, Free-append c m (b'.' ∷ f) (word-Free c m w h.1.1) (dot, word-Free c f w h.2.1))

-- A model's call, with no result in front.
crud_call-print :
    (t : SeqType) (result : Option Binding) (m : ModelRef) (d : Dict Text)
    → IsModelRef m
    → IsBlock d
    → crud_call t result (print_call (print_model m) d [])
      ≡ ok (
          some (record (blank t) {
            package_name = package_text m;
            model = model_text m;
            result = result;
            inputs = d;
          }))
unfolding crud_call is_word_char is_space
crud_call-print t result m d hm hd =
    rw
      (parse_call_expr_inputs-print (print_model m) d [] (model-StartsTight m hm)
        (model-Free b'(' m refl (omega arith) hm) hd tt refl)
      (rw (split_package_prefix-print m hm))

-- A character that is no word's and no bracket does not occur in a type.
pub type-Free :
    (c : ℕ) (t : TypeExpr)
    → is_word_char c ≡ false
    → b'[' ≢ c
    → b']' ≢ c
    → IsType t
    → Free c (print_type t)
type-Free c (plain t) w l r h = word-Free c t w h.1
type-Free c (slice t) w l r h = (l, (r, word-Free c t w h.1))
type-Free c (wrapped o t) w l r h =
    Free-append c o (b'[' ∷ (t ++ b']' ∷ [])) (word-Free c o w h.0.1)
      (l, Free-append c t (b']' ∷ []) (word-Free c t w h.1.1) (r, tt))

pub bound_name-Free :
    (c : ℕ) (t : TypeExpr) (v : Text)
    → is_word_char c ≡ false
    → b'[' ≢ c
    → b']' ≢ c
    → b' ' ≢ c
    → IsType t
    → IsWord v
    → Free c ((print_type t ++ b' ' ∷ v) ++ b' ' ∷ [])
bound_name-Free c t v w l r blank ht hv =
    Free-append c (print_type t ++ b' ' ∷ v) (b' ' ∷ [])
      (Free-append c (print_type t) (b' ' ∷ v) (type-Free c t w l r ht)
        (blank, word-Free c v w hv.1))
      (blank, tt)

pub bound_name-IsTight :
    (t : TypeExpr) (v : Text) → IsType t → IsWord v → IsTight (print_type t ++ b' ' ∷ v)
bound_name-IsTight t v ht hv =
    IsTight-append (print_type t) (b' ' ∷ v) (print_type-IsTight t ht).0
      (EndsTight-cons b' ' v (IsWord-IsTight v hv).1)

-- The name in front of the equals sign, with the blank that is trimmed.
pub parse_result-bound :
    (t : TypeExpr) (v : Text)
    → IsType t
    → IsWord v
    → parse_result (trim_space ((print_type t ++ b' ' ∷ v) ++ b' ' ∷ [])) ≡ some (binding t v)
parse_result-bound t v ht hv =
    ap parse_result
      (trim_space-blank_behind (print_type t ++ b' ' ∷ v) (bound_name-IsTight t v ht hv))
    ∙ parse_result-print t v ht hv

pub print_bound-IsTight :
    (t : TypeExpr) (v rest : Text)
    → IsType t
    → IsWord v
    → EndsTight rest
    → IsTight (print_bound t v rest)
print_bound-IsTight t v rest ht hv h =
    let name : Text = print_type t ++ b' ' ∷ v in
    IsTight-append (name ++ b' ' ∷ []) (b'=' ∷ b' ' ∷ rest)
      (StartsTight-append name (b' ' ∷ []) (bound_name-IsTight t v ht hv).0)
      (EndsTight-append (b'=' ∷ b' ' ∷ []) rest h)

pub parse_crud-bound :
    (s : SeqType) (t : TypeExpr) (v : Text) (m : ModelRef) (d : Dict Text)
    → IsType t
    → IsWord v
    → IsModelRef m
    → IsBlock d
    → parse_crud s (print_bound t v (print_call (print_model m) d [])) true
      ≡ ok (some (crud s (some (t, v)) m d))
unfolding parse_crud crud_sides is_space is_word_char
parse_crud-bound s t v m d ht hv hm hd =
    let name : Text = (print_type t ++ b' ' ∷ v) ++ b' ' ∷ [] in
    let expr : Text = print_call (print_model m) d [] in
    let tight : IsTight expr =
      print_call-IsTight (print_model m) d [] (model-StartsTight m hm) refl in
    ap (crud_split s)
      (trim_space-tight (print_bound t v expr) (print_bound-IsTight t v expr ht hv tight.1))
    ∙ rw
        (
          index-Free b'=' name (b' ' ∷ expr)
              (bound_name-Free b'=' t v refl (omega arith) (omega arith) (omega arith) ht hv),
          crud_split,
        )
        (ap₂ (crud_sides s) (take-length name (b'=' ∷ b' ' ∷ expr))
          (drop-suc-length name b'=' (b' ' ∷ expr)))
    ∙ ap₂ (crud_bound s) (trim_space-blank-tight expr tight) (parse_result-bound t v ht hv)
    ∙ crud_call-print s (some (binding t v)) m d hm hd

pub parse_crud-plain :
    (s : SeqType) (m : ModelRef) (d : Dict Text)
    → IsModelRef m
    → IsBlock d
    → parse_crud s (print_call (print_model m) d []) false ≡ ok (some (crud s none m d))
unfolding parse_crud is_space
parse_crud-plain s m d hm hd =
    ap (crud_call s none) (
      trim_space-tight (print_call (print_model m) d [])
        (print_call-IsTight (print_model m) d [] (model-StartsTight m hm) refl))
    ∙ crud_call-print s none m d hm hd
