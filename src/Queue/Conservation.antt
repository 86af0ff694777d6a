-- ===== src/Queue/Conservation.antt =====
-- queue.go: what happens to the waiting transactions when a contribution is proposed.
use Prim.Native.Nat.{min}
use mathlib.Core.List.{Perm, perm_append_comm}
use mathlib.Core.List.Perm
use cleisthenes.Base.{
  ℕ, zero, suc, ◌≤◌, ◌<◌, ◌≡◌, refl, sym, subst, ap, ◌∙◌, some, List, [], ◌∷◌, ◌++◌, append-nil,
  append_assoc, length, take, drop, get_elem?, remove_at, length-take, take-append-drop, arith,
}
use cleisthenes.Base.Go.{done, panic}
use cleisthenes.Queue.{
  Contribution, Manager, poll, push, load_candidate_tx, push_leftover, select_loop,
  select_random_tx, create_contribution, try_propose,
}

-- What `rand.Intn` documents: an index below the bound, if the bound is positive.
abbrev pub InRange : (ℕ → ℕ → ℕ) → Type 0
InRange intn = (i k : ℕ) → 0 < k → intn i k < k

module _ {ℓ} {A : Type ℓ} where
  get_elem?_lt : (xs : List A) (i : ℕ) → i < length xs → (x : A) × (get_elem? xs i ≡ some x)
  get_elem?_lt [] i h = absurd (omega arith)
  get_elem?_lt (x ∷ xs) zero h = (x, refl)
  get_elem?_lt (x ∷ xs) (suc i) h = get_elem?_lt xs i (omega arith)

  remove_at-perm :
      (xs : List A) (i : ℕ) {x : A} → get_elem? xs i ≡ some x → Perm (x ∷ remove_at xs i) xs
  remove_at-perm [] i h = absurd (ground arith)
  remove_at-perm (y ∷ xs) zero h = Perm.cons' (ground arith) Perm.rfl
  remove_at-perm (y ∷ xs) (suc i) {x} h =
      Perm.trans (Perm.swap y x (remove_at xs i)) (Perm.cons y (remove_at-perm xs i h))

  length-remove_at :
      (xs : List A) (i : ℕ) → i < length xs → suc (length (remove_at xs i)) ≡ length xs
  length-remove_at [] i h = absurd (omega arith)
  length-remove_at (x ∷ xs) zero h = refl
  length-remove_at (x ∷ xs) (suc i) h = omega (arith, length-remove_at xs i)

  regroup :
      (batch leftover front back : List A) {q : List A}
      → Perm (batch ++ leftover) front
      → front ++ back ≡ q
      → Perm (batch ++ (back ++ leftover)) q
  regroup batch leftover front back {q} same e = subst (Perm _) e (
      Perm.trans (Perm.append_left batch (perm_append_comm back leftover)) (
        subst (λ l. Perm l (front ++ back)) (append_assoc batch leftover back)
          (Perm.append_right back same)))

module _ {Transaction : Type 0} where
  push_leftover-append :
      (leftover txs : List Transaction) → push_leftover leftover txs ≡ txs ++ leftover
  unfolding push_leftover
  push_leftover-append [] txs = sym (append-nil txs)
  push_leftover-append (tx ∷ leftover) txs =
      push_leftover-append leftover (push tx txs)
      ∙ unfold push in append_assoc txs (tx ∷ []) leftover

  load-take :
      (k : ℕ) (m : Manager Transaction) (q : List Transaction)
      → m.tx_queue ≡ q
      → k ≤ length q
      → load_candidate_tx k m ≡ done (take k q) (record m { tx_queue = drop k q })
  unfolding load_candidate_tx poll
  load-take zero m q e h = ground arith
  load-take (suc k) m [] e h = absurd (omega arith)
  load-take (suc k) m (tx ∷ q) e h =
      ground (arith, load-take k (record m { tx_queue = q }) q refl (omega arith))

  -- Loading takes the oldest transactions in their order, if there are enough.
  pub load_candidate_tx-take :
      (k : ℕ) (m : Manager Transaction)
      → k ≤ length m.tx_queue
      → load_candidate_tx k m ≡ done (take k m.tx_queue) (record m { tx_queue = drop k m.tx_queue })
  load_candidate_tx-take k m h = load-take k m m.tx_queue refl h

  module _ (intn : ℕ → ℕ → ℕ) (ranged : InRange intn) where
    select_loop-perm :
        (rounds i : ℕ) (candidate : List Transaction) (m : Manager Transaction)
        → rounds ≤ length candidate
        → (batch : List Transaction) × (leftover : List Transaction) × (select_loop intn rounds i
              candidate m
            ≡ done (batch, leftover) m)
          × (length batch ≡ rounds)
          × Perm (batch ++ leftover) candidate
    unfolding select_loop
    select_loop-perm zero i candidate m h = ([], candidate, refl, refl, Perm.refl candidate)
    select_loop-perm (suc rounds) i candidate m h =
        let idx = intn i (length candidate) in
        let low : idx < length candidate = ranged i (length candidate) (omega arith) in
        let (tx, found) = get_elem?_lt candidate idx low in
        let (batch, leftover, e, size, same) =
          select_loop-perm rounds (suc i) (remove_at candidate idx) m
            (omega (arith, length-remove_at candidate idx low)) in
        (
          tx ∷ batch,
          leftover,
          ground (arith, e, found),
          ap suc size,
          Perm.trans (Perm.cons tx same) (remove_at-perm candidate idx found),
        )

    -- With at least as many transactions waiting as a contribution takes, and batches no smaller
    -- than contributions, a proposal succeeds: it hands over one contribution of exactly that
    -- size, and the contribution and the queue that is left hold, together, the transactions
    -- that waited before.
    pub try_propose-perm :
        (m : Manager Transaction)
        → m.contribution_size ≤ m.batch_size
        → m.contribution_size ≤ length m.tx_queue
        → (c : Contribution Transaction) × (m' : Manager Transaction) × (try_propose intn m
            ≡ done tt m')
          × (m'.handled ≡ m.handled ++ c ∷ [])
          × (length c.tx_list ≡ m.contribution_size)
          × Perm (c.tx_list ++ m'.tx_queue) m.tx_queue
    unfolding try_propose create_contribution select_random_tx
    try_propose-perm m large enough =
        let q = m.tx_queue in
        let k = min m.batch_size (length q) in
        let m' = record m { tx_queue = drop k q } in
        let (batch, leftover, e, size, same) =
          select_loop-perm m.contribution_size 0 (take k q) m' (omega (arith, length-take k q)) in
        let c : Contribution Transaction = record { tx_list = batch } in
        (
          c,
          record m' { tx_queue = drop k q ++ leftover; handled = m.handled ++ c ∷ [] },
          ground (
            arith,
            load_candidate_tx-take k m (omega arith),
            e,
            push_leftover-append leftover (drop k q),
          ),
          refl,
          size,
          regroup batch leftover (take k q) (drop k q) same (take-append-drop k q),
        )

    select_loop-panic :
        (rounds i : ℕ) (candidate : List Transaction) (m : Manager Transaction)
        → length candidate < rounds
        → select_loop intn rounds i candidate m ≡ panic m
    unfolding select_loop
    select_loop-panic zero i candidate m h = absurd (omega arith)
    select_loop-panic (suc rounds) i [] m h = refl
    select_loop-panic (suc rounds) i (tx ∷ txs) m h =
        let idx = intn i (length (tx ∷ txs)) in
        let low : idx < length (tx ∷ txs) = ranged i (length (tx ∷ txs)) (omega arith) in
        let (found, e) = get_elem?_lt (tx ∷ txs) idx low in
        ground (
          arith,
          e,
          select_loop-panic rounds (suc i) (remove_at (tx ∷ txs) idx) m
              (omega (arith, length-remove_at (tx ∷ txs) idx low)),
        )

    -- With enough transactions waiting but batches smaller than contributions, a proposal panics,
    -- and the transactions that it loaded are gone from the queue.
    pub try_propose-small_batch :
        (m : Manager Transaction)
        → m.contribution_size ≤ length m.tx_queue
        → m.batch_size < m.contribution_size
        → try_propose intn m ≡ panic (record m { tx_queue = drop m.batch_size m.tx_queue })
    unfolding try_propose create_contribution select_random_tx
    try_propose-small_batch m enough small =
        let e : min m.batch_size (length m.tx_queue) ≡ m.batch_size = omega arith in
        ground (
          arith,
          e,
          load_candidate_tx-take m.batch_size m (omega arith),
          select_loop-panic m.contribution_size 0 (take m.batch_size m.tx_queue)
              (record m { tx_queue = drop m.batch_size m.tx_queue })
              (omega (arith, length-take m.batch_size m.tx_queue)),
        )
