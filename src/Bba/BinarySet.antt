-- ===== src/Bba/BinarySet.antt =====
-- bba/binary_set.go: a set of binaries, as a map into `true`.
use cleisthenes.Base.{
  Bool, true, false, List, [], ◌∷◌, none, some, GoMap, lookup, insert, bool_eq, if◌then◌else◌,
}
use cleisthenes.Binary.{Binary}

abbrev pub BinarySet : Type 0
BinarySet = GoMap Binary Bool

-- `newBinarySet`
abbrev pub new_binary_set : BinarySet
new_binary_set = []

-- `exist`
unfoldable pub exist : Binary → BinarySet → Bool
exist bin s = elim (lookup bin s) [ none ↦ false | some _ ↦ true ]

-- `union`
unfoldable pub union : Binary → BinarySet → BinarySet
union bin s = insert bin true s

-- `toList`
unfoldable pub to_list : BinarySet → List Binary
to_list [] = []
to_list ((bin, present) ∷ s) = let rest = to_list s in if present then bin ∷ rest else rest
