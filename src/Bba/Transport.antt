-- ===== src/Bba/Transport.antt =====
-- bba/bba.go: a request on its way from `broadcast` to `HandleMessage`.
use cleisthenes.Base.{ℕ, ◌*◌, ◌<◌, ◌≡◌, ◌≢◌, refl, false, some, List, [], ◌∷◌, ◌++◌, length, arith}
use cleisthenes.Base.Go.{done}
use cleisthenes.Binary.{Binary}
use cleisthenes.Member.{Member}
use cleisthenes.Bba.Request.{Request, bval, aux, other, ok}
use cleisthenes.Bba.State.{BbaRequest, bval_type, aux_type, BbaMessage, Bba, send_req}
use cleisthenes.Bba.Handlers.{
  Json, process_payload, type_of, marshal, handle_message, share, broadcast,
}

-- What a round trip through JSON keeps
abbrev pub RoundTrips : Json → Type 0
RoundTrips json =
    (v : Binary) → (p : List ℕ) × (json.marshal v ≡ some p) × (json.unmarshal p ≡ some v)

-- The request channel takes one more request.
pub record Ready (s : Bba) : Type 0 where
  pub open_chan : s.req_chan_closed ≡ false
  pub free : length s.req_chan < s.n * 8

send_req-done :
    (r : BbaRequest) (s : Bba)
    → Ready s
    → send_req r s ≡ done tt (record s { req_chan = s.req_chan ++ r ∷ [] })
unfolding send_req
send_req-done r s h = ground (arith, h.open_chan, h.free)

module _ (json : Json) where
  handle_message-done :
      (sender : Member) (msg : BbaMessage) (req : Request) (round : ℕ) (t : Bba)
      → process_payload msg.round msg.type (json.unmarshal msg.payload) ≡ ok (req, round)
      → Ready t
      → handle_message json sender msg t
        ≡ done tt (record t {
          req_chan = t.req_chan ++ record { sender = sender; payload = req; round = round } ∷ [];
        })
  unfolding handle_message
  handle_message-done sender msg req round t good h =
      rw (good, handle_message)
        (send_req-done (record { sender = sender; payload = req; round = round }) t h)

  -- If JSON gives values back, a BVAL or an AUX that an instance with room in its channel
  -- broadcasts is shared as one message, with its round, and queued by the instance itself; any
  -- instance with room that is handed that message queues the same request, with the same round.
  pub broadcast_delivered :
      RoundTrips json
      → (s t : Bba) (sender : Member) (req : Request) → req ≢ other
      → Ready s
      → Ready t
      → (msg : BbaMessage) × (broadcast json req s
          ≡ done tt (record s {
            req_chan =
                s.req_chan ++ record { sender = s.owner; payload = req; round = s.round } ∷ [];
            shared =
                s.shared ++ record { proposer = s.proposer; sender = s.owner; body = msg } ∷ [];
          }))
        × (handle_message json sender msg t
            ≡ done tt (record t {
              req_chan =
                  t.req_chan ++ record { sender = sender; payload = req; round = s.round } ∷ [];
            }))
  unfolding broadcast type_of marshal share process_payload
  broadcast_delivered trips s t sender (bval v) known hs ht =
      let (p, there, back) = trips v in
      let msg : BbaMessage = record { round = s.round; type = bval_type; payload = p } in
      let good : process_payload s.round bval_type (json.unmarshal p) ≡ ok (bval v, s.round) =
        ground (arith, back) in
      (
        msg,
        ground (arith, there, handle_message-done s.owner msg (bval v) s.round s good hs),
        handle_message-done sender msg (bval v) s.round t good ht,
      )
  broadcast_delivered trips s t sender (aux v) known hs ht =
      let (p, there, back) = trips v in
      let msg : BbaMessage = record { round = s.round; type = aux_type; payload = p } in
      let good : process_payload s.round aux_type (json.unmarshal p) ≡ ok (aux v, s.round) =
        ground (arith, back) in
      (
        msg,
        ground (arith, there, handle_message-done s.owner msg (aux v) s.round s good hs),
        handle_message-done sender msg (aux v) s.round t good ht,
      )
  broadcast_delivered trips s t sender other known hs ht = absurd (known refl)
