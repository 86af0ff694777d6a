-- ===== src/Rbc/Length.antt =====
-- rbc/rbc.go: the content length of an instance and of the messages that it is given.
use cleisthenes.Base.{ℕ, suc, ◌≡◌, ◌≢◌, ◌∙◌, inl, inr, List, ◌==◌, Option-cases, if_rule, arith}
use cleisthenes.Base.Go.{fail, final}
use cleisthenes.Member.{Member}
use cleisthenes.Rbc.State.{
  Request, echo, ready, ok, RbcMessage, Rbc, invalid_content_length, set_content_length,
}
use cleisthenes.Rbc.Handlers.{
  type_of, share_message, decode_success, process_message, handle_request, handle_message,
}
use cleisthenes.Rbc.Decode.{Env}
use cleisthenes.Rbc.Run.{Event, run}
use cleisthenes.Rbc.Rules.{Anything, Rules}
use cleisthenes.Rbc.Keeps.{run_any-keeps}

module _ (env : Env) where
  length-share_message :
      (s : Rbc) (req : Request) → (share_message env req s).content_length ≡ s.content_length
  unfolding share_message
  length-share_message s req = elim (Option-cases (type_of req)) [
    | inl bad ↦ rw (bad, share_message)
    | inr (typ, good) ↦ elim (Option-cases (env.marshal req)) [
      | inl bad ↦ rw (good, bad, share_message)
      | inr (p, good') ↦ rw (good, good', share_message)
    ]
  ]

  abbrev Known : ℕ → Rbc → Type 0
  Known k s = s.content_length ≡ suc k

  Known-Rules : (k : ℕ) → Rules env Anything (Known k)
  unfolding set_content_length decode_success
  Known-Rules k = record {
    writes = record {
      take_length =
          λ s j h. if_rule (Known k) (s.content_length == 0) (λ e. absurd (ground arith)) (λ _. h);
      take_value = λ s req fresh h. length-share_message _ (echo req) ∙ h;
      save_echo = λ s sender req absent known h. h;
      save_ready = λ s sender hash absent h. h;
      share_ready = λ s hash unsent h. length-share_message _ (ready hash) ∙ h;
      distribute = λ s proposer reqs made h. h;
    };
    output = λ s hash value undone readys echos good h. h;
  }

  mismatch-fails :
      (k : ℕ) (s : Rbc) (sender : Member) (msg : RbcMessage) (req : Request)
      → s.content_length ≡ suc k
      → msg.content_length ≢ suc k
      → process_message env msg ≡ ok req
      → handle_message env sender msg s ≡ fail (invalid_content_length (suc k) msg.content_length) s
  unfolding handle_message handle_request set_content_length
  mismatch-fails k s sender msg req known other good = ground (arith, good)

  -- Once an instance knows a content length, whoever it learned it from, every message of another
  -- length is refused with no effect, after any further history.
  pub length_poisoned :
      (k : ℕ) (s : Rbc) (es : List Event) (sender : Member) (msg : RbcMessage) (req : Request)
      → s.content_length ≡ suc k
      → msg.content_length ≢ suc k
      → process_message env msg ≡ ok req
      → handle_message env sender msg (final (run env es s))
        ≡ fail (invalid_content_length (suc k) msg.content_length) (final (run env es s))
  length_poisoned k s es sender msg req known other good =
      mismatch-fails k (final (run env es s)) sender msg req
        (run_any-keeps (Known-Rules k) es s known) other good
