-- ===== src/Generator/Handler/Transaction.antt =====
-- The transaction of a handler: where it is opened, and where it is committed.
use ssac.Base.{Bool, true, false, List, [], ◌∷◌}
use ssac.Text.{Text}
use ssac.Generator.Loop.{Piece}
use ssac.Generator.Loop.Commits.{CommitsOnce}
use ssac.Generator.Handler.{Part, plain, opens, piece}

-- The pieces among the parts.
abbrev pub pieces_of : List Part → List Piece
pieces_of [] = []
pieces_of (plain s ∷ parts) = pieces_of parts
pieces_of (opens ∷ parts) = pieces_of parts
pieces_of (piece p ∷ parts) = p ∷ pieces_of parts

abbrev pub NoneOpens : List Part → Type 0
NoneOpens [] = Unit
NoneOpens (plain s ∷ parts) = NoneOpens parts
NoneOpens (opens ∷ parts) = ⊥
NoneOpens (piece p ∷ parts) = NoneOpens parts

-- With a transaction: it is opened once, above all pieces, and these commit it once. Without one:
-- none is opened, and nothing is committed.
unfoldable pub IsTransacted : Bool → List Part → Type 0
IsTransacted true [] = ⊥
IsTransacted true (plain s ∷ parts) = IsTransacted true parts
IsTransacted true (opens ∷ parts) = NoneOpens parts × CommitsOnce true (pieces_of parts)
IsTransacted true (piece p ∷ parts) = ⊥
IsTransacted false parts = NoneOpens parts × CommitsOnce false (pieces_of parts)
