-- ===== src/Rbc/Merkle.antt =====
-- rbc/merkletree/merkletree.go: the path check and the order of a shard, which are the
-- repository's own code. The tree and the hash are third-party and enter as parameters of the
-- broadcast. Bytes are numbers below 256, and a byte slice that is nil is the empty list.
pub mod Buffer
pub mod Tree
pub mod Binding
mod Tests
use cleisthenes.Base.{
  ℕ, suc, ◌+◌, ◌^◌, ◌/◌, Bool, Option, none, some, List, [], ◌∷◌, ◌++◌, take, drop, replicate,
  bytes_beq,
}

abbrev pub Bytes : Type 0
Bytes = List ℕ

-- An entry of `indexList`, an int64: the code asks only whether it is 0 or 1.
pub data Index : Type 0 where
  index_zero index_one : Index
  index_other : (negative : Bool) → ℕ → Index

-- `Data`: `NewData` and `Bytes` wrap and unwrap the bytes.
pub record Data : Type 0 where
  pub content : Bytes

-- `copy(dst, src)`: as many bytes as both have; the rest of `dst` stays.
abbrev pub copy : Bytes → Bytes → Bytes
copy [] src = []
copy (d ∷ dst) [] = d ∷ dst
copy (d ∷ dst) (b ∷ src) = b ∷ copy dst src

-- `copy(leaf[:32], left)` and `copy(leaf[32:], right)`
abbrev pub fill_leaf : Bytes → Bytes → Bytes → Bytes
fill_leaf leaf left right = copy (take 32 leaf) left ++ copy (drop 32 leaf) right

-- The loop of `ValidatePath`, over the buffer `leaf` and the hash `branch`. An index list that is
-- shorter than the path is an index out of range.
unfoldable pub walk : (Bytes → Bytes) → Bytes → Bytes → List Bytes → List Index → Option Bytes
walk hash leaf branch [] is = some branch
walk hash leaf branch (path ∷ paths) [] = none
walk hash leaf branch (path ∷ paths) (index_zero ∷ is) =
    let leaf' = fill_leaf leaf path branch in walk hash leaf' (hash leaf') paths is
walk hash leaf branch (path ∷ paths) (index_one ∷ is) =
    let leaf' = fill_leaf leaf branch path in walk hash leaf' (hash leaf') paths is
walk hash leaf branch (path ∷ paths) (index_other _ _ ∷ is) = walk hash leaf branch paths is

-- `ValidatePath`; `none` is a panic. SHA-256 documents that writing to it never fails.
unfoldable pub validate_path :
    (Bytes → Bytes) → Data → Bytes → List Bytes → List Index → Option Bool
unfolding walk
validate_path hash d root_hash root_path indexes =
    elim (walk hash (replicate 64 0) (hash d.content) root_path indexes) [
      | none ↦ none
      | some branch ↦ some (bytes_beq root_hash branch)
    ]

-- The loop of `OrderOfData` from position `i` on: each 0 counts `pow(2, i + 1) / 2`. The numbers
-- are exact, as Go's are on fewer than 62 levels.
unfoldable pub order_from : ℕ → List Index → ℕ
order_from i [] = 0
order_from i (index_zero ∷ is) = 2 ^ (i + 1) / 2 + order_from (suc i) is
order_from i (_ ∷ is) = order_from (suc i) is

-- `OrderOfData`
unfoldable pub order_of_data : List Index → ℕ
unfolding order_from
order_of_data is = order_from 0 is
