-- ===== src/Queue/Tests.antt =====
-- queue.go: the theorems at a manager with five transactions waiting.
use mathlib.Core.List.{Perm}
use cleisthenes.Base.{ℕ, ◌≡◌, true, false, [], ◌∷◌, ◌++◌, length, take, drop, ◌-◌, arith}
use cleisthenes.Base.Go.{done, panic}
use cleisthenes.Queue.{Contribution, Manager, load_candidate_tx, try_propose}
use cleisthenes.Queue.Conservation.{
  InRange, load_candidate_tx-take, try_propose-perm, try_propose-small_batch,
}

abbrev waiting : ℕ → Manager ℕ
waiting batch_size = record {
  tx_queue = 11 ∷ 12 ∷ 13 ∷ 14 ∷ 15 ∷ [];
  contribution_size = 2;
  batch_size = batch_size;
  stop_flag = false;
  tx_validator = λ tx. true;
  handled = [];
}

-- Always the last candidate.
abbrev last : ℕ → ℕ → ℕ
last i k = k - 1

last-InRange : InRange last
last-InRange i k positive = omega arith

load_candidate_tx-take_example :
    load_candidate_tx 3 (waiting 4)
    ≡ done
        (take 3 (waiting 4).tx_queue)
        (record (waiting 4) { tx_queue = drop 3 (waiting 4).tx_queue })
load_candidate_tx-take_example = load_candidate_tx-take 3 (waiting 4) (ground arith)

try_propose-perm_example :
    (c : Contribution ℕ) × (m' : Manager ℕ) × (try_propose last (waiting 4) ≡ done tt m')
    × (m'.handled ≡ [] ++ c ∷ [])
    × (length c.tx_list ≡ 2)
    × Perm (c.tx_list ++ m'.tx_queue) (waiting 4).tx_queue
try_propose-perm_example =
    try_propose-perm last last-InRange (waiting 4) (ground arith) (ground arith)

try_propose-small_batch_example :
    try_propose last (waiting 1)
    ≡ panic (record (waiting 1) { tx_queue = drop 1 (waiting 1).tx_queue })
try_propose-small_batch_example =
    try_propose-small_batch last last-InRange (waiting 1) (ground arith) (ground arith)
