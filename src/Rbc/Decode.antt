-- ===== src/Rbc/Decode.antt =====
-- rbc/rbc.go: `tryDecodeValue` on the ECHOs that are there. The hash, the Merkle tree, the erasure code
-- and JSON are third-party and enter as the parameter `Env`.
use cleisthenes.Base.{
  ℕ, ◌+◌, Option, none, some, List, [], ◌∷◌, ◌++◌, length, replicate, set, take, ltb, leb,
  bytes_beq, if◌then◌else◌,
}
use cleisthenes.Member.{address_eq}
use cleisthenes.Rbc.Merkle.{Bytes, Index, Data, order_of_data}
use cleisthenes.Rbc.State.{
  ValRequest, Request, not_enough_shards, reconstruct_error, Result, ok, err,
}

-- What the code calls and the repository does not hold. A shard that is missing is nil.
pub record Env : Type 0 where
  pub hash : Bytes → Bytes
  pub split : Bytes → Option (List Bytes)
  pub encode : List Bytes → Option (List Bytes)
  pub reconstruct : List Bytes → Option (List Bytes)
  -- The root of the tree over the shards, with the path and the indexes of each shard.
  pub tree : List Data → Option (Bytes × (Data → Option (List Bytes × List Index)))
  pub marshal : Request → Option Bytes
  pub unmarshal_val : Bytes → Option ValRequest
  pub unmarshal_echo : Bytes → Option ValRequest
  pub unmarshal_ready : Bytes → Option Bytes
  -- What a slice that `append` has grown holds between its length and its capacity.
  pub spare : Bytes → Bytes

-- The loop of `tryDecodeValue` that puts the shards in order; `none` is an index out of range.
unfoldable pub place_shards : Bytes → List ValRequest → List Bytes → Option (List Bytes)
unfolding order_of_data
place_shards hash [] shards = some shards
place_shards hash (req ∷ reqs) shards =
    let order = order_of_data req.indexes in
    let next = set shards order req.shard.content in
    let fits = ltb order (length shards) in
    let skipped = place_shards hash reqs shards in
    let placed = place_shards hash reqs next in
    if bytes_beq hash req.root_hash then (if fits then placed else none) else skipped

-- The loop that joins the data shards.
unfoldable pub join : List Bytes → Bytes
join [] = []
join (shard ∷ shards) = shard ++ join shards

module _ (env : Env) where
  -- `tryDecodeValue` on a copy of what it reads; it changes nothing. `none` is a panic.
  unfoldable pub decode :
      Bytes → List ValRequest → (data_shards parity_shards size : ℕ) → Option (Result Bytes)
  decode hash reqs data_shards parity_shards size =
      if ltb (length reqs) data_shards
      then some (err (not_enough_shards data_shards (length reqs)))
      else elim (place_shards hash reqs (replicate (data_shards + parity_shards) [])) [
        | none ↦ none
        | some placed ↦ elim (env.reconstruct placed) [
          | none ↦ some (err reconstruct_error)
          | some rebuilt ↦
              let value = join (take data_shards rebuilt) in
              if leb size (length (value ++ env.spare value))
              then some (ok (take size (value ++ env.spare value)))
              else none
        ]
      ]
