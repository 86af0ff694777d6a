-- ===== src/Honeybadger/Batches.antt =====
-- honeybadger/honeybadger.go: from the batch of an epoch to its result.
use mathlib.Core.List.{Memᴰ}
use cleisthenes.Base.{
  values, ℕ, ◌≡◌, ◌⊎◌, inl, inr, refl, false, Option, none, some, List, [], ◌∷◌, ◌++◌, GoMap,
  lookup, insert, keys, Distinct, lookup-insert, lookup_absent, Option-cases, arith,
}
use cleisthenes.Base.Go.{done}
use cleisthenes.Member.{Member, member_eq, member_beq_iff}
use cleisthenes.Honeybadger.{
  BatchMessage, Tpke, HoneyBadger, decrypt_loop, handle_batch_message, on_batch,
}

-- What the key has in the decrypted batch.
abbrev pub decrypted_at : Tpke → Option (List ℕ) → Option (List ℕ) → Option (List ℕ)
decrypted_at tpk none old = old
decrypted_at tpk (some enc) old = tpk.decrypt enc

decrypt_loop-lookup :
    (tpk : Tpke) (acc batch : GoMap Member (List ℕ)) {out : GoMap Member (List ℕ)} (k : Member)
    → Distinct (keys batch)
    → decrypt_loop tpk acc batch ≡ some out
    → lookup k out ≡ decrypted_at tpk (lookup k batch) (lookup k acc)
unfolding decrypt_loop lookup
decrypt_loop-lookup tpk acc [] k d e = ground arith
decrypt_loop-lookup tpk acc ((m, enc) ∷ batch) {out} k d e = elim (Option-cases (tpk.decrypt enc)) [
  | inl bad ↦ absurd (ground arith)
  | inr (tx, good) ↦ ground (
    arith,
    good,
    decrypt_loop-lookup tpk (insert m tx acc) batch {out = out} k d.1 (ground arith),
    lookup-insert m k tx acc,
    lookup_absent m batch d.0,
    member_beq_iff m k,
  )
]

decrypt_loop-none :
    (tpk : Tpke) (acc batch : GoMap Member (List ℕ))
    → decrypt_loop tpk acc batch ≡ none
    → (enc : List ℕ) × Memᴰ enc (values batch) × (tpk.decrypt enc ≡ none)
unfolding decrypt_loop
decrypt_loop-none tpk acc [] e = absurd (ground arith)
decrypt_loop-none tpk acc ((m, enc) ∷ batch) e = elim (Option-cases (tpk.decrypt enc)) [
  | inl bad ↦ (enc, Memᴰ.head refl, bad)
  | inr (tx, good) ↦
      let (x, inside, bad) = decrypt_loop-none tpk (insert m tx acc) batch (ground arith) in
      (x, Memᴰ.tail inside, bad)
]

module _ {Acs : Type 0} where
  -- A batch is decrypted whole or not at all. Either it holds something that cannot
  -- be decrypted and nothing is sent, or one result is sent, for the epoch of the batch, which has for each member the decryption of what the batch has for it,
  -- and nothing for a member that the batch lacks. In both cases the consensus is over.
  pub on_batch_result :
      (hb : HoneyBadger Acs) (msg : BatchMessage)
      → Distinct (keys msg.batch)
      → (hb' : HoneyBadger Acs) × (on_batch msg hb ≡ done tt hb')
        × (hb'.on_consensus_flag ≡ false)
        × (((hb'.results ≡ hb.results)
              × ((enc : List ℕ) × Memᴰ enc (values msg.batch) × (hb.tpk.decrypt enc ≡ none)))
            ⊎ ((out : GoMap Member (List ℕ)) × (hb'.results
                  ≡ hb.results ++ record { epoch = msg.epoch; batch = out } ∷ [])
                × ((k : Member) → lookup k out ≡ decrypted_at hb.tpk (lookup k msg.batch) none)))
  unfolding on_batch handle_batch_message lookup
  on_batch_result hb msg d = elim (Option-cases (decrypt_loop hb.tpk [] msg.batch)) [
    | inl bad ↦ (
      record hb { on_consensus_flag = false },
      ground (arith, bad),
      refl,
      inl (refl, decrypt_loop-none hb.tpk [] msg.batch bad),
    )
    | inr (out, good) ↦ (
      record hb {
        on_consensus_flag = false;
        results = hb.results ++ record { epoch = msg.epoch; batch = out } ∷ [];
      },
      ground (arith, good),
      refl,
      inr (out, refl, λ k. decrypt_loop-lookup hb.tpk [] msg.batch k d good),
    )
  ]
