-- ===== src/App/Tests.antt =====
-- example/app/api.go: a node that keeps the transactions, which are numbers, below 10.
use cleisthenes.Base.{ℕ, ◌≡◌, refl, ltb, ◌==◌, Bool, none, some, List, [], ◌∷◌, if◌then◌else◌}
use cleisthenes.Base.Go.{Go, done, fail}
use cleisthenes.App.{
  illegal_argument, json_error, submit_error, decode_propose_tx_request, make_propose_tx_endpoint,
  propose_tx, post_tx,
}

abbrev submit : ℕ → Go ℕ (List ℕ) (Unit {0})
submit tx n = if ltb tx 10 then done tt (tx ∷ n) else fail tx n

abbrev empty : ℕ → Bool
empty tx = tx == 0

post_tx-runs :
    (post_tx empty submit (some 3) [] ≡ done (record {}) (3 ∷ []))
    × (post_tx empty submit (some 11) [] ≡ fail (submit_error 11) [])
    × (post_tx empty submit (some 0) [] ≡ fail illegal_argument [])
    × (post_tx empty submit none [] ≡ fail json_error [])
unfolding decode_propose_tx_request make_propose_tx_endpoint propose_tx post_tx
post_tx-runs = (refl, refl, refl, refl)
