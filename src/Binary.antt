-- ===== src/Binary.antt =====
-- binary.go: `BinaryState`, a binary that is undefined until it is set. The lock is left out.
use cleisthenes.Base.{Bool, true, false}

abbrev pub Binary : Type 0
Binary = Bool

abbrev pub one : Binary
one = true

abbrev pub zero : Binary
zero = false

pub record BinaryState : Type 0 where
  pub value : Binary
  pub undefined : Bool

-- `Set`
unfoldable pub set : BinaryState → Binary → BinaryState
set b bin = record { value = bin; undefined = false }

-- `NewBinaryState`
unfoldable pub new : BinaryState
new = record { value = false; undefined = true }
