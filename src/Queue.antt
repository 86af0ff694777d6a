-- ===== src/Queue.antt =====
-- queue.go and transaction.go: the transaction queue and the manager that takes contributions
-- from it. A transaction is any value; locks, the sleep of the routine and its log are left out.
pub mod Conservation
mod Tests
use Prim.Native.Nat.{min}
use cleisthenes.Base.{
  ℕ, zero, suc, ◌+◌, Bool, true, false, not, Option, none, some, List, [], ◌∷◌, ◌++◌, length, drop,
  get_elem?, remove_at, ltb, ◌==◌, if◌then◌else◌,
}
use cleisthenes.Base.Go.{Outcome, Go, done, fail, block, panic, after}

pub data Error : Type 0 where
  empty_queue : Error
  index_boundary : (que_size want : ℕ) → Error
  invalid_transaction : Error

pub data Result {ℓ} (A : Type ℓ) : Type ℓ where
  ok : A → Result A
  err : Error → Result A

-- `Contribution`
pub record Contribution (Transaction : Type 0) : Type 0 where
  pub tx_list : List Transaction

module _ {Transaction : Type 0} where
  -- `NewTxQueue`: `MemTxQueue.txs`, oldest first
  abbrev pub new_tx_queue : List Transaction
  new_tx_queue = []

  -- `empty`
  abbrev pub empty : List Transaction → Bool
  empty txs = length txs == 0

  -- `peek`: `q.txs[0]` behind its guard
  unfoldable pub peek : List Transaction → Result Transaction
  peek [] = err empty_queue
  peek (tx ∷ txs) = ok tx

  -- `Poll`
  unfoldable pub poll : Go Error (List Transaction) Transaction
  unfolding peek
  poll txs = elim (peek txs) [ err e ↦ fail e txs | ok ret ↦ done ret (drop 1 txs) ]

  -- `at`, for an index that is not negative
  unfoldable pub at : ℕ → Go Error (List Transaction) Transaction
  at index txs =
      if not (ltb index (length txs))
      then fail (index_boundary (length txs) index) txs
      else elim (get_elem? txs index) [ none ↦ panic txs | some tx ↦ done tx txs ]

  -- `Push`
  unfoldable pub push : Transaction → List Transaction → List Transaction
  push tx txs = txs ++ tx ∷ []

-- `DefaultTxQueueManager`, with the contributions that it has handed to its HoneyBadger
pub record Manager (Transaction : Type 0) : Type 0 where
  pub tx_queue : List Transaction
  pub contribution_size : ℕ
  pub batch_size : ℕ
  pub stop_flag : Bool
  pub tx_validator : Transaction → Bool
  pub handled : List (Contribution Transaction)

abbrev pub ManagerGo : Type 0 → Type 0 → Type 0
ManagerGo Transaction A = Go Error (Manager Transaction) A

module _ {Transaction : Type 0} where
  -- A call on the manager's queue.
  abbrev pub on_queue :
      {A : Type 0}
      → Manager Transaction
      → Outcome Error (List Transaction) A
      → Outcome Error (Manager Transaction) A
  on_queue m (done a txs) = done a (record m { tx_queue = txs })
  on_queue m (fail e txs) = fail e (record m { tx_queue = txs })
  on_queue m (block txs) = block (record m { tx_queue = txs })
  on_queue m (panic txs) = panic (record m { tx_queue = txs })

  -- `NewDefaultTxQueueManager`
  unfoldable pub new_manager : List Transaction → ℕ → ℕ → (Transaction → Bool) → Manager Transaction
  new_manager tx_queue contribution_size batch_size tx_validator = record {
    tx_queue = tx_queue;
    contribution_size = contribution_size;
    batch_size = batch_size;
    stop_flag = false;
    tx_validator = tx_validator;
    handled = [];
  }

  -- `AddTransaction`
  unfoldable pub add_transaction : Transaction → ManagerGo Transaction (Unit {0})
  unfolding push
  add_transaction tx m =
      if not (m.tx_validator tx)
      then fail invalid_transaction m
      else done tt (record m { tx_queue = push tx m.tx_queue })

  -- `Close`: it waits for the propose routine to read from a channel without a buffer, and that
  -- routine never does.
  unfoldable pub close : ManagerGo Transaction (Unit {0})
  close m = if m.stop_flag then done tt m else block (record m { stop_flag = true })

  -- The loop of `loadCandidateTx`, with the number of rounds that are left
  unfoldable pub load_candidate_tx : ℕ → ManagerGo Transaction (List Transaction)
  load_candidate_tx zero m = done [] m
  load_candidate_tx (suc rounds) m =
      after (on_queue m (poll m.tx_queue))
        (λ tx. λ m'. after (load_candidate_tx rounds m') (λ txs. λ m''. done (tx ∷ txs) m''))

  -- The second loop of `selectRandomTx`: what is left goes back to the queue.
  unfoldable pub push_leftover : List Transaction → List Transaction → List Transaction
  unfolding push
  push_leftover [] txs = txs
  push_leftover (tx ∷ leftover) txs = push_leftover leftover (push tx txs)

  module _ (intn : ℕ → ℕ → ℕ) where
    -- The first loop of `selectRandomTx`, with the number of rounds that are left: the batch and
    -- what is left of the candidates. `intn i k` is the index that `rand` gives in round `i` for
    -- `k` candidates; it panics for none.
    unfoldable pub select_loop :
        ℕ → ℕ → List Transaction → ManagerGo Transaction (List Transaction × List Transaction)
    select_loop zero i candidate m = done ([], candidate) m
    select_loop (suc rounds) i candidate m =
        let idx = intn i (length candidate) in
        let rest = select_loop rounds (suc i) (remove_at candidate idx) in
        if length candidate == 0 then panic m else elim (get_elem? candidate idx) [
          | none ↦ panic m
          | some tx ↦ after (rest m) (λ r. λ m'. done (tx ∷ r.0, r.1) m')
        ]

    -- `selectRandomTx`
    unfoldable pub select_random_tx :
        List Transaction → ℕ → ManagerGo Transaction (List Transaction)
    select_random_tx candidate select_size m =
        after (select_loop select_size 0 candidate m)
          (λ r. λ m'. done r.0 (record m' { tx_queue = push_leftover r.1 m'.tx_queue }))

    -- `createContribution`
    unfoldable pub create_contribution : ManagerGo Transaction (Contribution Transaction)
    create_contribution m =
        after (load_candidate_tx (min m.batch_size (length m.tx_queue)) m) (λ candidate. λ m'.
          after (select_random_tx candidate m'.contribution_size m')
            (λ txs. λ m''. done (record { tx_list = txs }) m''))

    -- `tryPropose`
    unfoldable pub try_propose : ManagerGo Transaction (Unit {0})
    try_propose m =
        if ltb (length m.tx_queue) m.contribution_size
        then done tt m
        else after (create_contribution m)
            (λ c. λ m'. done tt (record m' { handled = m'.handled ++ c ∷ [] }))

    -- One round of `runContributionProposeRoutine`, given what `OnConsensus` answers
    unfoldable pub propose_round : Bool → ManagerGo Transaction (Unit {0})
    propose_round on_consensus m =
        if m.stop_flag then done tt m else if not on_consensus then try_propose m else done tt m
