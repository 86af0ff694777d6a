-- ===== src/Rbc/Input.antt =====
-- rbc/rbc.go: `HandleInput`, by which the proposer shards its value and sends one VAL to each node.
use cleisthenes.Base.{ℕ, Option, none, some, List, [], ◌∷◌, ◌++◌, length}
use cleisthenes.Base.Go.{after, done, fail, panic}
use cleisthenes.Member.{Member}
use cleisthenes.Rbc.Merkle.{Bytes, Index, Data}
use cleisthenes.Rbc.State.{
  ValRequest, val, json_error, encoder_error, tree_error, Result, ok, err, val_type, SharedMessage,
  Rbc, RbcGo, set_content_length,
}
use cleisthenes.Rbc.Handlers.{handle_value_request}
use cleisthenes.Rbc.Decode.{Env}

-- The loop of `shard` that wraps the shards
unfoldable pub wrap : List Bytes → List Data
wrap [] = []
wrap (shard ∷ shards) = record { content = shard } ∷ wrap shards

-- The loop of `makeRequest`
unfoldable pub requests_for :
    Bytes → (Data → Option (List Bytes × List Index)) → List Data → Option (List ValRequest)
requests_for root path [] = some []
requests_for root path (shard ∷ shards) = elim (path shard) [
  | none ↦ none
  | some (paths, indexes) ↦ elim (requests_for root path shards) [
    | none ↦ none
    | some reqs ↦
        some
          (record { root_hash = root; shard = shard; root_path = paths; indexes = indexes } ∷ reqs)
  ]
]

module _ (env : Env) where
  -- `shard`
  unfoldable pub shard : Bytes → Result (List Data)
  unfolding wrap
  shard bytes = elim (env.split bytes) [
    | none ↦ err encoder_error
    | some pieces ↦ elim (env.encode pieces) [
      | none ↦ err encoder_error
      | some shards ↦ ok (wrap shards)
    ]
  ]

  -- `makeRequest`
  unfoldable pub make_request : List Data → Result (List ValRequest)
  unfolding requests_for
  make_request shards = elim (env.tree shards) [
    | none ↦ err tree_error
    | some (root, path) ↦ elim (requests_for root path shards) [
      | none ↦ err tree_error
      | some reqs ↦ ok reqs
    ]
  ]

  -- The loop of `distributeMessage`
  unfoldable pub messages_for : Member → Rbc → List ValRequest → Option (List SharedMessage)
  messages_for proposer s [] = some []
  messages_for proposer s (req ∷ reqs) = elim (env.marshal (val req)) [
    | none ↦ none
    | some payload ↦ elim (messages_for proposer s reqs) [
      | none ↦ none
      | some msgs ↦ some (
          record {
            proposer = proposer;
            sender = s.owner;
            body = record { payload = payload; content_length = s.content_length; type = val_type };
          }
          ∷ msgs)
    ]
  ]

  -- `distributeMessage`: it looks at the first request, so an empty list is an index out of range.
  unfoldable pub distribute_message : Member → List ValRequest → RbcGo (Unit {0})
  unfolding messages_for
  distribute_message proposer [] s = panic s
  distribute_message proposer (req ∷ reqs) s = elim (messages_for proposer s (req ∷ reqs)) [
    | none ↦ fail json_error s
    | some msgs ↦ done tt (record s { distributed = s.distributed ++ msgs ∷ [] })
  ]

  -- `HandleInput` after `makeRequest`. In the source it runs on the goroutine of its caller, next to
  -- `run`; here the call is one step, and no VAL comes between its test of `valReceived` and its
  -- writes.
  unfoldable pub input_requests : ℕ → List ValRequest → RbcGo (Unit {0})
  unfolding set_content_length
  input_requests size [] s = panic (set_content_length size s)
  input_requests size (req ∷ reqs) s =
      let t = set_content_length size s in
      after (handle_value_request env t.proposer req t) (λ _. distribute_message t.proposer reqs)

  -- `HandleInput`
  unfoldable pub handle_input : Bytes → RbcGo (Unit {0})
  handle_input bytes s = elim (shard bytes) [
    | err e ↦ fail e s
    | ok shards ↦ elim (make_request shards) [
      | err e ↦ fail e s
      | ok reqs ↦ input_requests (length bytes) reqs s
    ]
  ]
