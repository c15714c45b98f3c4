-- ===== src/Parser/Comments.antt =====
-- parser/parser.go, `parseComments`: the comment lines above a function, one after the other.
pub mod Growth
use ssac.Base.{Bool, true, false, not, List, [], ◌∷◌, ◌++◌, if◌then◌else◌, ok, ◌>>=◌}
use ssac.Text.{Text, codes, text_eq, has_prefix, trim_prefix, trim_space}
use ssac.Parser.Types.{response, Sequence, blank, Parsed}
use ssac.Parser.Scan.{parse_response_fields}
use ssac.Parser.Line.{Line, sequence, nothing, response_start, parse_line}

-- The variables of the loop.
pub record CommentState : Type 0 where
  pub sequences : List Sequence
  pub response_lines : List Text
  pub in_response : Bool
  pub response_suppress_warn : Bool

abbrev pub initial : CommentState
initial = record {
  sequences = [];
  response_lines = [];
  in_response = false;
  response_suppress_warn = false;
}

-- The comment's text without its slashes and outer blanks.
unfoldable pub comment_line : Text → Text
comment_line text = trim_space (trim_prefix (codes "//") text)

-- The brace that ends a response block.
abbrev pub end_response : CommentState → CommentState
end_response st = record st {
  in_response = false;
  sequences =
      st.sequences
      ++ record (blank response) {
        fields = parse_response_fields st.response_lines;
        suppress_warn = st.response_suppress_warn;
      }
        ∷ [];
  response_lines = [];
}

-- A line inside a response block.
unfoldable pub in_block : CommentState → Text → CommentState
in_block st line =
    if text_eq line (codes "}")
    then end_response st
    else record st { response_lines = st.response_lines ++ line ∷ [] }

abbrev pub take_line : CommentState → Text → Line → CommentState
take_line st line (sequence seq) = record st { sequences = st.sequences ++ seq ∷ [] }
take_line st line nothing = st
take_line st line response_start = record st {
  in_response = true;
  response_suppress_warn = has_prefix (codes "@response!") line;
  response_lines = [];
}

-- A line outside of any block.
unfoldable pub out_of_block : CommentState → Text → Parsed CommentState
out_of_block st line =
    if not (has_prefix (codes "@") line)
    then ok st
    else (do parsed ← parse_line line; ok (take_line st line parsed))

unfoldable pub comment_step : CommentState → Text → Parsed CommentState
unfolding in_block out_of_block comment_line
comment_step st text =
    if st.in_response
    then ok (in_block st (comment_line text))
    else out_of_block st (comment_line text)

unfoldable pub comments_from : CommentState → List Text → Parsed CommentState
comments_from st [] = ok st
comments_from st (text ∷ texts) = do st' ← comment_step st text; comments_from st' texts

unfoldable pub parse_comments : List Text → Parsed (List Sequence)
unfolding comments_from comment_step
parse_comments texts = do st ← comments_from initial texts; ok st.sequences
