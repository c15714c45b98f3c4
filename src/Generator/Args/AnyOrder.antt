-- ===== src/Generator/Args/AnyOrder.antt =====
-- Go ranges over a map in any order; the code made from a map does not depend on it.
use ssac.Base.{
  ◌≡◌, refl, ap, ap₂, ◌∙◌, Bool, true, false, not, List, ◌∷◌, ◌++◌, map, if◌then◌else◌, flat_map,
  fun_ext,
}
use mathlib.Core.List.{Permᴰ}
use mathlib.Core.List.Permᴰ
use ssac.Text.{Text, codes}
use ssac.Text.Sort.{sort_texts}
use ssac.Text.Sort.Order.{sort_texts-Perm}
use ssac.Dict.{Dict, keys, member}
use ssac.Dict.Order.{Keyed, keys-Perm, member-Perm, lookup-Perm}
use ssac.Generator.Go.{Tools, join, quote}
use ssac.Generator.Args.{
  value_of, keep, ordered_keys, argument_keys, input_value_to_code, build_input_fields,
  build_args_code_from_inputs, build_publish_payload, build_publish_options, publish_option,
  option_list,
}

keep_cons :
    (b : Bool) (x : Text) {ss ts : List Text}
    → Permᴰ ss ts
    → Permᴰ (if b then x ∷ ss else ss) (if b then x ∷ ts else ts)
keep_cons true x q = Permᴰ.cons refl q
keep_cons false x q = q

keep_swap :
    (b c : Bool) (x y : Text) (ss : List Text)
    → Permᴰ
        (if b then x ∷ (if c then y ∷ ss else ss) else (if c then y ∷ ss else ss))
        (if c then y ∷ (if b then x ∷ ss else ss) else (if b then x ∷ ss else ss))
keep_swap true true x y ss = Permᴰ.swap refl refl
keep_swap true false x y ss = Permᴰ.refl (x ∷ ss)
keep_swap false true x y ss = Permᴰ.refl (y ∷ ss)
keep_swap false false x y ss = Permᴰ.refl ss

pub keep-Perm : (p : Text → Bool) {ss ts : List Text} → Permᴰ ss ts → Permᴰ (keep p ss) (keep p ts)
unfolding keep
keep-Perm p Permᴰ.nil = Permᴰ.nil
keep-Perm p (Permᴰ.cons {a} {b} {l₁} {l₂} e q) = rw e (keep_cons (p b) b (keep-Perm p q))
keep-Perm p (Permᴰ.swap {a} {b} {a'} {b'} {l} e f) =
    rw (e, f) (keep_swap (p b') (p a') b' a' (keep p l))
keep-Perm p (Permᴰ.trans q r) = Permᴰ.trans (keep-Perm p q) (keep-Perm p r)

module _ (t : Tools) {d e : Dict Text} (same : Permᴰ d e) (keyed : Keyed d) where
  value_of-Perm : (k : Text) → value_of k d ≡ value_of k e
  unfolding value_of
  value_of-Perm k = rw (lookup-Perm k same keyed, value_of) refl

  sorted_keys : sort_texts (keys d) ≡ sort_texts (keys e)
  sorted_keys = sort_texts-Perm (keys-Perm same)

  -- A piece of code for each key, in the keys' order.
  listed_same :
      (g : Text → Text → Text)
      → map (λ k. g k (value_of k d)) (sort_texts (keys d))
        ≡ map (λ k. g k (value_of k e)) (sort_texts (keys e))
  listed_same g = ap₂ map (fun_ext (λ k. ap (g k) (value_of-Perm k))) sorted_keys

  fields_same : build_input_fields t d ≡ build_input_fields t e
  unfolding build_input_fields
  fields_same =
      ap (join (codes ", "))
        (listed_same (λ k v. t.to_go_pascal k ++ (codes ": " ++ input_value_to_code t v)))

  payload_same : build_publish_payload t d ≡ build_publish_payload t e
  unfolding build_publish_payload
  payload_same = ap (join (codes "\n")) (
      listed_same (λ k v.
        codes "\t\t"
        ++ (quote t (t.to_go_pascal k) ++ (codes ": " ++ (input_value_to_code t v ++ codes ",")))))

  option_same : (k : Text) → publish_option t d k ≡ publish_option t e k
  unfolding publish_option
  option_same k = rw (value_of-Perm k) refl

  options_same : build_publish_options t d ≡ build_publish_options t e
  unfolding build_publish_options
  options_same = ap (option_list t) (ap₂ flat_map (fun_ext option_same) sorted_keys)

  keys_same :
      (o : Text) (order : List Text) → argument_keys d (o ∷ order) ≡ argument_keys e (o ∷ order)
  unfolding argument_keys ordered_keys
  keys_same o order =
      let is_key : (λ p. member p (keys d)) ≡ (λ p. member p (keys e)) =
        fun_ext (λ p. member-Perm p (keys-Perm same)) in
      ap₂ (λ used extra. used ++ extra) (ap (λ p. keep p (o ∷ order)) is_key)
        (sort_texts-Perm (keep-Perm _ (keys-Perm same))
          ∙ ap (λ p. sort_texts (keep (λ k. not (member k (keep p (o ∷ order)))) (keys e))) is_key)

  args_same :
      (o : Text) (order : List Text)
      → build_args_code_from_inputs t d (o ∷ order) ≡ build_args_code_from_inputs t e (o ∷ order)
  unfolding build_args_code_from_inputs
  args_same o order =
      ap (join (codes ", "))
        (ap₂ map (fun_ext (λ k. ap (input_value_to_code t) (value_of-Perm k))) (keys_same o order))

-- The order in which Go's map gives its entries does not show in the code that is made from it: the
-- fields of a request or a state, the payload and the options of a publish, and, for a method whose
-- parameters are known, the arguments, are the same for each order.
pub code-Perm :
    (t : Tools) (d e : Dict Text)
    → Permᴰ d e
    → Keyed d
    → (build_input_fields t d ≡ build_input_fields t e)
      × (build_publish_payload t d ≡ build_publish_payload t e)
      × (build_publish_options t d ≡ build_publish_options t e)
      × ((o : Text) (order : List Text)
          → build_args_code_from_inputs t d (o ∷ order)
            ≡ build_args_code_from_inputs t e (o ∷ order))
code-Perm t d e same keyed = (
  fields_same t same keyed,
  payload_same t same keyed,
  options_same t same keyed,
  args_same t same keyed,
)
