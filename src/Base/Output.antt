-- ===== src/Base/Output.antt =====
-- What is printed: one piece for each literal part and each conversion of a `printf` format.
use Prim.Native.String.{String}
use mm_exper.Base.{ℕ, List, ◌∷◌, [], ◌++◌, Bool, if◌then◌else◌, Option}
use mm_exper.Base.Text.{Bytes}
use mm_exper.Base.Int.{ℤ}

pub data Piece : Type 0 where
  text : String → Piece
  -- `%016lx`, `%lx`, `%lu`, `%p`, `%d`, `%s`; a null `%s` is kept apart.
  hex16 hex dec pointer : ℕ → Piece
  int : ℤ → Piece
  str : Bytes → Piece
  str_or_null : Option Bytes → Piece

abbrev pub Output : Type 0
Output = List Piece

-- `if (b) printf (s);`
abbrev pub print_if : Bool → String → Output
print_if b s = if b then text s ∷ [] else []

-- Calls one after the other.
abbrev pub outputs : List Output → Output
outputs [] = []
outputs (o ∷ os) = o ++ outputs os
