-- ===== src/Generator/Imports.antt =====
-- generator/go_params.go, `collectImports` and `collectSubscribeImports`, and `filterUsedImports` of
-- generator/go_helpers.go. The set `seen` is the list of its members.
use ssac.Base.{
  suc, Bool, true, false, not, ◌&&◌, ◌||◌, List, [], ◌∷◌, ◌++◌, Option, none, some, any, drop,
  is_empty, if◌then◌else◌,
}
use ssac.Text.{Text, codes, text_eq, has_prefix, last_index}
use ssac.Text.Sort.{sort_texts}
use ssac.Dict.{values, member}
use ssac.Parser.Types.{
  SeqType, state, auth, publish, response, post, put, delete, Arg, Binding, Sequence, ServiceFunc,
}
use ssac.Validator.Symbols.{PathParam}
use ssac.Generator.Go.{contains}
use ssac.Generator.Args.{keep}
use ssac.Generator.Params.{RequestParam}

-- `seen[x] = true`
abbrev pub add : Text → List Text → List Text
add x seen = if member x seen then seen else x ∷ seen

abbrev add_if : Bool → Text → List Text → List Text
add_if true x seen = add x seen
add_if false x seen = seen

abbrev pub is_write_type : SeqType → Bool
is_write_type post = true
is_write_type put = true
is_write_type delete = true
is_write_type _ = false

abbrev pub is_write : Sequence → Bool
is_write seq = is_write_type seq.type

-- `hasWriteSequence`
unfoldable pub has_write_sequence : List Sequence → Bool
has_write_sequence seqs = any is_write seqs

abbrev pub is_auth : SeqType → Bool
is_auth auth = true
is_auth _ = false

abbrev current_user_arg : Arg → Bool
current_user_arg a = text_eq a.source (codes "currentUser")

abbrev pub current_user_input : Text → Bool
current_user_input val = has_prefix (codes "currentUser.") val

abbrev uses_current_user : Sequence → Bool
uses_current_user seq =
    is_auth seq.type || any current_user_arg seq.args || any current_user_input (values seq.inputs)

-- `needsCurrentUser`
unfoldable pub needs_current_user : List Sequence → Bool
unfolding text_eq has_prefix
needs_current_user seqs = any uses_current_user seqs

abbrev is_direct_type : SeqType → Text → Bool
is_direct_type response target = not (is_empty target)
is_direct_type _ target = false

abbrev is_direct : Sequence → Bool
is_direct seq = is_direct_type seq.type seq.target

abbrev is_wrapped : Option Binding → Bool
is_wrapped none = false
is_wrapped (some r) = not (is_empty r.wrapper)

abbrev pagination : Text
pagination = codes "github.com/park-jun-woo/fullend/pkg/pagination"

-- What one sequence's kind imports.
kind_import : SeqType → Text → List Text → List Text
unfolding member
kind_import state diagram seen = add (codes "states/" ++ (diagram ++ codes "state")) seen
kind_import auth diagram seen = add (codes "authz") seen
kind_import publish diagram seen = add (codes "queue") seen
kind_import _ diagram seen = seen

unfoldable pub kind_imports : List Sequence → List Text → List Text
unfolding kind_import
kind_imports [] seen = seen
kind_imports (seq ∷ seqs) seen = kind_imports seqs (kind_import seq.type seq.diagram_id seen)

is_number_type : Text → Bool
unfolding member
is_number_type type = member type (codes "int64" ∷ codes "float64" ∷ codes "bool" ∷ [])

param_import : Text → List Text → List Text
unfolding is_number_type text_eq member
param_import type seen =
    if is_number_type type
    then add (codes "strconv") seen
    else add_if (text_eq type (codes "time.Time")) (codes "time") seen

param_imports : List RequestParam → List Text → List Text
unfolding param_import
param_imports [] seen = seen
param_imports (p ∷ ps) seen = param_imports ps (param_import p.go_type seen)

abbrev is_converted_path : PathParam → Bool
is_converted_path p = not (text_eq p.go_type (codes "string"))

-- The order that the source fixes, and the others sorted.
unfoldable pub fixed_first : List Text → List Text → List Text
unfolding keep sort_texts member
fixed_first order seen =
    keep (λ x. member x seen) order ++ sort_texts (keep (λ x. not (member x order)) seen)

-- `seen` as `collectImports` leaves it
unfoldable pub candidate_imports :
    ServiceFunc → List RequestParam → List PathParam → Bool → Bool → List Text
unfolding kind_imports param_imports has_write_sequence member text_eq
candidate_imports sf params paths needs_cu needs_qo =
    let base =
      kind_imports sf.sequences (codes "net/http" ∷ codes "github.com/gin-gonic/gin" ∷ []) in
    let wrapped = any (λ (seq : Sequence). is_wrapped seq.result) sf.sequences in
    let paged = add_if (wrapped && not (any is_direct sf.sequences)) pagination base in
    let typed = param_imports params paged in
    let pathed = add_if (any is_converted_path paths) (codes "strconv") typed in
    let modelled = add_if (needs_cu || needs_qo) (codes "model") pathed in
    add_if (has_write_sequence sf.sequences) (codes "database/sql") modelled

-- `collectImports`
unfoldable pub collect_imports_http :
    ServiceFunc → List RequestParam → List PathParam → Bool → Bool → List Text
unfolding candidate_imports fixed_first
collect_imports_http sf params paths needs_cu needs_qo =
    fixed_first (codes "database/sql" ∷ codes "net/http" ∷ codes "strconv" ∷ codes "time" ∷ [])
      (candidate_imports sf params paths needs_cu needs_qo)
    ++ sf.imports

add_all : List Text → List Text → List Text
unfolding member
add_all [] seen = seen
add_all (x ∷ xs) seen = add_all xs (add x seen)

-- `collectSubscribeImports`
unfoldable pub collect_subscribe_imports : ServiceFunc → List Text
unfolding kind_imports needs_current_user has_write_sequence add_all fixed_first member
collect_subscribe_imports sf =
    let base = kind_imports sf.sequences (codes "context" ∷ codes "fmt" ∷ []) in
    let modelled = add_if (needs_current_user sf.sequences) (codes "model") base in
    let stored = add_if (has_write_sequence sf.sequences) (codes "database/sql") modelled in
    fixed_first (codes "context" ∷ codes "fmt" ∷ []) (add_all sf.imports stored)

-- The package's name: what stands behind the last slash.
unfoldable pub package_of_import : Text → Text
unfolding last_index
package_of_import imp = elim (last_index b'/' imp) [ none ↦ imp | some i ↦ drop (suc i) imp ]

-- `filterUsedImports`
unfoldable pub filter_used_imports : List Text → Text → List Text
unfolding keep package_of_import contains
filter_used_imports imports body =
    keep (λ imp. contains (package_of_import imp ++ codes ".") body) imports
