-- ===== src/Rbc/Merkle/Tests.antt =====
-- rbc/merkletree/merkletree.go: the theorems at a tree of four shards. The hash keeps the first 32
-- bytes of its input, filled up with 0.
use cleisthenes.Base.{
  ℕ, ◌≡◌, refl, inr, ◌⊎◌, List, [], ◌∷◌, ◌++◌, some, true, length, length-append, length-take, take,
  replicate, arith,
}
use cleisthenes.Rbc.Merkle.{
  Bytes, Index, index_zero, index_one, Data, validate_path, walk, order_of_data,
}
use cleisthenes.Rbc.Merkle.Binding.{GivesThirtyTwo, Collision, hashed, same_shard, forged_shard}
use cleisthenes.Rbc.Merkle.Tree.{Tree, leaf, node, root_of, Place, place_at, validate_path-tree}

abbrev hash : Bytes → Bytes
hash bytes = take 32 (bytes ++ replicate 32 0)

hash-GivesThirtyTwo : GivesThirtyTwo hash
hash-GivesThirtyTwo bytes =
    omega (arith, length-take 32 (bytes ++ replicate 32 0), length-append bytes (replicate 32 0))

abbrev shard : ℕ → Data
shard b = record { content = b ∷ [] }

abbrev tree : Tree 2
tree = node (node (leaf (shard 10)) (leaf (shard 20))) (node (leaf (shard 30)) (leaf (shard 40)))

abbrev third : Place hash
third = place_at hash tree 2

third_accepted :
    validate_path hash third.shard (root_of hash tree) third.path third.indexes ≡ some true
unfolding validate_path walk
third_accepted = refl

validate_path-tree_example :
    (validate_path hash third.shard (root_of hash tree) third.path third.indexes ≡ some true)
    × (order_of_data third.indexes ≡ 2)
validate_path-tree_example = validate_path-tree hash hash-GivesThirtyTwo tree 2 (omega arith)

-- The path with a byte more at its first entry, which the copy cuts off.
abbrev long_path : List Bytes
long_path =
    (hash (shard 40).content ++ 9 ∷ [])
    ∷ root_of hash (node (leaf (shard 10)) (leaf (shard 20)))
    ∷ []

long_path_accepted :
    validate_path hash third.shard (root_of hash tree) long_path third.indexes ≡ some true
unfolding validate_path walk
long_path_accepted = refl

same_shard_example :
    (third.shard.content ≡ third.shard.content)
    ⊎ Collision hash
        (hashed hash third.shard third.path third.indexes)
        (hashed hash third.shard long_path third.indexes)
same_shard_example =
    same_shard hash hash-GivesThirtyTwo third.shard third.shard (root_of hash tree) third.path
      long_path third.indexes refl third_accepted long_path_accepted

forged_shard_example :
    (forged : Data) × (length forged.content ≡ 64)
    × ((any : List Index) → validate_path hash forged (root_of hash tree) [] any ≡ some true)
forged_shard_example =
    forged_shard hash third.shard (root_of hash tree) (hash (shard 40).content)
      (root_of hash (node (leaf (shard 10)) (leaf (shard 20))) ∷ []) index_one (index_zero ∷ [])
      (inr refl) third_accepted
