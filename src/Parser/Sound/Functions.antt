-- ===== src/Parser/Sound/Functions.antt =====
-- The sequences of the functions that `ParseFile` returns.
use ssac.Base.{
  ◌≡◌, inl, inr, refl, Bool, true, false, List, [], ◌∷◌, ◌++◌, ok, fail, panic, ◌>>=◌, All, arith,
  Returns, bind-Returns, ok-Returns, if-Returns, Returns-ok, All-append, if◌then◌else◌,
}
use ssac.Text.{Text, codes, text_eq}
use ssac.Parser.Types.{response, SeqType, valid_sequence_type, blank, Sequence, Parsed, ServiceFunc}
use ssac.Parser.Scan.{parse_response_fields}
use ssac.Parser.Line.{Line, sequence, nothing, response_start, parse_line}
use ssac.Parser.Comments.{
  CommentState, initial, end_response, in_block, take_line, out_of_block, comment_step,
  comments_from, parse_comments,
}
use ssac.Parser.File.{
  File, Decl, FuncDecl, func_decl, gen_decl, bad_decl, is_subscribe, without_subscribe,
  service_func, add_func, comments_before, funcs_of, parse_file,
}
use ssac.Parser.Sound.{StatusInRange, IsKnown, IsSound, LineSound, parse_line-LineSound}

abbrev StateSound : CommentState → Type 0
StateSound st = All IsSound st.sequences

append_one :
    (s : Sequence) (ss : List Sequence) → All IsSound ss → IsSound s → All IsSound (ss ++ s ∷ [])
append_one s ss h k = All-append IsSound ss (s ∷ []) h (k, tt)

if_holds : {A : Type 0} (P : A → Type 0) (b : Bool) (x y : A) → P x → P y → P (if b then x else y)
if_holds P true x y h k = h
if_holds P false x y h k = k

abbrev block : CommentState → Sequence
block st = record (blank response) {
  fields = parse_response_fields st.response_lines;
  suppress_warn = st.response_suppress_warn;
}

in_block-StateSound :
    (st : CommentState) (line : Text) → StateSound st → StateSound (in_block st line)
unfolding in_block valid_sequence_type
in_block-StateSound st line h =
    if_holds StateSound (text_eq line (codes "}")) (end_response st) _
      (append_one (block st) st.sequences h (inr refl, inl refl)) h

take_line-StateSound :
    (st : CommentState) (line : Text) (m : Parsed Line)
    → StateSound st
    → LineSound m
    → Returns StateSound (m >>= λ parsed. ok (take_line st line parsed))
unfolding LineSound Returns
take_line-StateSound st line (ok (sequence seq)) h k = append_one seq st.sequences h k
take_line-StateSound st line (ok nothing) h k = h
take_line-StateSound st line (ok response_start) h k = h
take_line-StateSound st line (fail e) h k = tt
take_line-StateSound st line panic h k = tt

comment_step-StateSound :
    (st : CommentState) (text : Text) → StateSound st → Returns StateSound (comment_step st text)
unfolding comment_step out_of_block
comment_step-StateSound st text h =
    if-Returns StateSound _ _ _ (ok-Returns _ StateSound _ (in_block-StateSound st _ h)) (
      if-Returns StateSound _ _ _ (ok-Returns _ StateSound st h)
        (take_line-StateSound st _ (parse_line _) h (parse_line-LineSound _)))

comments_from-StateSound :
    (st : CommentState) (texts : List Text)
    → StateSound st
    → Returns StateSound (comments_from st texts)
unfolding comments_from
comments_from-StateSound st [] h = ok-Returns _ StateSound st h
comments_from-StateSound st (text ∷ texts) h =
    bind-Returns StateSound StateSound (comment_step st text) _ (comment_step-StateSound st text h)
      (λ st' h'. comments_from-StateSound st' texts h')

parse_comments-IsSound : (texts : List Text) → Returns (All IsSound) (parse_comments texts)
unfolding parse_comments
parse_comments-IsSound texts =
    bind-Returns StateSound (All IsSound) (comments_from initial texts) _
      (comments_from-StateSound initial texts tt)
      (λ st h. ok-Returns _ (All IsSound) st.sequences h)

-- A sequence of a kind that the program lists, with no status or an HTTP status.
abbrev pub IsListed : Sequence → Type 0
IsListed s = (valid_sequence_type s.type ≡ true) × StatusInRange s.err_status

other_than_subscribe :
    (t : SeqType) → IsKnown t → is_subscribe t ≡ false → valid_sequence_type t ≡ true
unfolding valid_sequence_type
other_than_subscribe t (inl e) h = absurd (ground arith)
other_than_subscribe t (inr e) h = e

kept-IsListed :
    (s : Sequence) (ss : List Sequence) (b : Bool)
    → is_subscribe s.type ≡ b
    → IsSound s
    → All IsListed ss
    → All IsListed (if b then ss else s ∷ ss)
kept-IsListed s ss true e h k = k
kept-IsListed s ss false e h k = ((other_than_subscribe s.type h.0 e, h.1), k)

without_subscribe-IsListed :
    (ss : List Sequence) → All IsSound ss → All IsListed (without_subscribe ss)
unfolding without_subscribe
without_subscribe-IsListed [] h = tt
without_subscribe-IsListed (s ∷ ss) h =
    kept-IsListed s (without_subscribe ss) (is_subscribe s.type) refl h.0
      (without_subscribe-IsListed ss h.1)

abbrev pub FunctionListed : ServiceFunc → Type 0
FunctionListed sf = All IsListed sf.sequences

add_func-FunctionListed :
    (name : Text) (f : File) (fn : FuncDecl) (ss : List Sequence) (funcs : List ServiceFunc)
    → All IsSound ss
    → All FunctionListed funcs
    → All FunctionListed (add_func name f fn ss funcs)
unfolding service_func
add_func-FunctionListed name f fn [] funcs h k = k
add_func-FunctionListed name f fn (s ∷ ss) funcs h k = (without_subscribe-IsListed (s ∷ ss) h, k)

funcs_of-FunctionListed :
    (name : Text) (f : File) (decls : List Decl)
    → Returns (All FunctionListed) (funcs_of name f decls)
unfolding funcs_of
funcs_of-FunctionListed name f [] = ok-Returns _ (All FunctionListed) [] tt
funcs_of-FunctionListed name f (func_decl fn ∷ decls) =
    bind-Returns (All IsSound) (All FunctionListed)
      (parse_comments (comments_before fn.pos f.comments)) _ (parse_comments-IsSound _)
      (λ ss h.
        bind-Returns (All FunctionListed) (All FunctionListed) (funcs_of name f decls) _
          (funcs_of-FunctionListed name f decls)
          (λ funcs k.
            ok-Returns _ (All FunctionListed) _ (add_func-FunctionListed name f fn ss funcs h k)))
funcs_of-FunctionListed name f (gen_decl specs ∷ decls) = funcs_of-FunctionListed name f decls
funcs_of-FunctionListed name f (bad_decl ∷ decls) = funcs_of-FunctionListed name f decls

-- In every function that `ParseFile` returns, every sequence has one of the kinds listed in
-- `ValidSequenceTypes`, and its status is 0 or lies from 100 to 599: @subscribe, which is no kind
-- of sequence, has been taken out.
pub parse_file-FunctionListed :
    (name : Text) (f : File) (funcs : List ServiceFunc)
    → parse_file name f ≡ ok funcs
    → All FunctionListed funcs
unfolding parse_file
parse_file-FunctionListed name f funcs e =
    Returns-ok (All FunctionListed) (parse_file name f) funcs e
      (funcs_of-FunctionListed name f f.decls)
