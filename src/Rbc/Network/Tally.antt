-- ===== src/Rbc/Network/Tally.antt =====
-- rbc/rbc.go: what a node has counted of the ECHOs, given what all nodes have sent in the end.
pub mod Keeps
use cleisthenes.Base.{
  ℕ, ◌*◌, ◌-◌, ◌≤◌, ◌≡◌, ◌⊎◌, inl, inr, refl, sym, subst, true, false, Option, none, some, List,
  GoMap, values, keys, lookup, lookup-insert, insert-Distinct, Distinct, contains, count_if,
  bytes_beq, All, All-append, All-map, All-insert, ◌==◌, if_rule, Option-cases, arith,
}
use cleisthenes.Base.Go.{done, fail, block, panic, final}
use cleisthenes.Member.{Address, Member, address_eq}
use cleisthenes.Rbc.Merkle.{Bytes}
use cleisthenes.Rbc.State.{
  ValRequest, Request, echo, ready, ok, RbcType, EchoReqRepository, RbcMessage, SharedMessage,
  DataMessage, Rbc, set_content_length,
}
use cleisthenes.Rbc.Handlers.{
  type_of, share_message, decode_success, process_message, count_echos, echo_threshold,
}
use cleisthenes.Rbc.Decode.{Env, decode}
use cleisthenes.Rbc.Rules.{Rules, with_value}
use cleisthenes.Rbc.Keeps.{step-keeps, KnownEvent}
use cleisthenes.Rbc.Run.{Event, message, input}
use cleisthenes.Network.{any}
use cleisthenes.Network.Sent.{Source, Kept}
use cleisthenes.Rbc.Network.{Node, message_beq, rbc_protocol, sent, source}
use cleisthenes.Rbc.Network.Votes.{
  EchoTrips, chosen, chosen-with_value, chosen-fresh, chosen-saving, Present, saving, Says,
  echo-Says, ready-Says, messages_for-Says,
}

module _ (env : Env) where
  module _ (n f : ℕ) (bad : List Address) (last : GoMap Address Node) where
    -- The address is faulty, or its node has sent this very ECHO.
    abbrev pub Heard : Address → ValRequest → Type 0
    Heard b req =
        (contains b bad ≡ true)
        ⊎ ((t : Node) × (msg : RbcMessage) × (lookup b last ≡ some t)
            × (any (message_beq msg) (sent t) ≡ true)
            × (process_message env msg ≡ ok (echo req)))

    -- The ECHO that a node keeps for an address is one that it was sent, or its own, which has the
    -- root of the VAL that it has accepted.
    abbrev pub Vote : Address → Option Bytes → Address → ValRequest → Type 0
    Vote a o b req = Heard b req ⊎ ((b ≡ a) × (o ≡ some req.root_hash))

    -- The value was decoded from ECHOs of which n - f, of different addresses, have the root, and
    -- each of the ECHOs is a vote.
    pub record DecodedFrom (a : Address) (o : Option Bytes) (root value : Bytes) : Type 0 where
      pub echos : EchoReqRepository
      pub size : ℕ
      pub senders : Distinct (keys echos)
      pub votes : All (λ x. Vote a o x.0 x.1) echos
      pub enough : n - f ≤ count_if (λ req. bytes_beq root req.root_hash) (values echos)
      pub decodes : decode env root (values echos) (n - 2 * f) (2 * f) size ≡ some (ok value)

    abbrev pub AnyOutput : Address → Option Bytes → DataMessage → Type 0
    AnyOutput a o msg = (root : Bytes) × DecodedFrom a o root msg.bytes

    pub record TallyOf (a : Address) (o : Option Bytes) (owner : Address)
        (nodes faulty data_shards parity_shards : ℕ) (echos : EchoReqRepository)
        (shared : List SharedMessage) (distributed : List (List SharedMessage))
        (data_sent : List DataMessage) : Type 0 where
      pub same_owner : owner ≡ a
      pub same_n : nodes ≡ n
      pub same_f : faulty ≡ f
      pub same_data : data_shards ≡ n - 2 * f
      pub same_parity : parity_shards ≡ 2 * f
      pub senders : Distinct (keys echos)
      pub votes : All (λ x. Vote a o x.0 x.1) echos
      pub said : All (λ m. Says env o m.body) shared
      pub given : All (λ ms. All (λ m. Says env o m.body) ms) distributed
      pub outputs : All (AnyOutput a o) data_sent

    abbrev pub Counted : Address → Option Bytes → Rbc → Type 0
    Counted a o s =
        TallyOf a o s.owner.address s.n s.f s.num_data_shards s.num_parity_shards s.echo_req_repo
          s.shared s.distributed s.data_sent

    abbrev pub Tally : Address → Rbc → Type 0
    Tally a s = Counted a (chosen s) s × Present s

    Vote-choose :
        (a b : Address) (o : Option Bytes) (req : ValRequest) → Vote a none b req → Vote a o b req
    Vote-choose a b o req (inl heard) = inl heard
    Vote-choose a b o req (inr (own, e)) = absurd (ground arith)

    Output-choose :
        (a : Address) (o : Option Bytes) (msg : DataMessage)
        → AnyOutput a none msg
        → AnyOutput a o msg
    Output-choose a o msg (root, h) = (
      root,
      record {
        echos = h.echos;
        size = h.size;
        senders = h.senders;
        votes = All-map _ _ (λ x. Vote-choose a x.0 o x.1) h.echos h.votes;
        enough = h.enough;
        decodes = h.decodes;
      },
    )

    Says-choose : (o : Option Bytes) (m : SharedMessage) → Says env none m.body → Says env o m.body
    Says-choose o m h req e = absurd (let wrong = h req e in ground arith)

    -- An instance that accepts a VAL votes for its root.
    pub take_value-Counted :
        (a : Address) (s : Rbc) (req : ValRequest)
        → Counted a none s
        → Counted a (some req.root_hash) (with_value req s)
    take_value-Counted a s req h =
        let o = some req.root_hash in
        record {
          same_owner = h.same_owner;
          same_n = h.same_n;
          same_f = h.same_f;
          same_data = h.same_data;
          same_parity = h.same_parity;
          senders = insert-Distinct s.owner.address req s.echo_req_repo h.senders;
          votes =
              All-insert (λ x. Vote a o x.0 x.1) s.owner.address req s.echo_req_repo
                (inr (h.same_owner, refl))
                (All-map _ _ (λ x. Vote-choose a x.0 o x.1) s.echo_req_repo h.votes);
          said = All-map _ _ (Says-choose o) s.shared h.said;
          given = All-map _ _ (λ ms. All-map _ _ (Says-choose o) ms) s.distributed h.given;
          outputs = All-map _ _ (Output-choose a o) s.data_sent h.outputs;
        }

    pub share-Tally :
        (a : Address) (s : Rbc) (req : Request)
        → ((p : Bytes) (typ : RbcType)
            → type_of req ≡ some typ
            → env.marshal req ≡ some p
            → Says env
                (chosen s)
                (record { payload = p; content_length = s.content_length; type = typ }))
        → Tally a s
        → Tally a (share_message env req s)
    unfolding share_message chosen
    share-Tally a s req says h = elim (Option-cases (type_of req)) [
      | inl bad ↦ rw (bad, share_message) h
      | inr (typ, good) ↦ elim (Option-cases (env.marshal req)) [
        | inl bad ↦ rw (good, bad, share_message) h
        | inr (p, good') ↦
            rw (good, good', share_message)
              (
                record {
                  same_owner = h.0.same_owner;
                  same_n = h.0.same_n;
                  same_f = h.0.same_f;
                  same_data = h.0.same_data;
                  same_parity = h.0.same_parity;
                  senders = h.0.senders;
                  votes = h.0.votes;
                  said =
                      All-append (λ m. Says env (chosen s) m.body) s.shared _ h.0.said
                        (says p typ good good', tt);
                  given = h.0.given;
                  outputs = h.0.outputs;
                },
                h.1,
              )
      ]
    ]

    -- `Present` is about the instance's own entry, which no write removes.
    pub saving-Tally :
        (a : Address) (s : Rbc) (sender : Member) (req : ValRequest)
        → lookup sender.address s.echo_req_repo ≡ none
        → Heard sender.address req
        → Tally a s
        → Tally a (saving sender req s)
    saving-Tally a s sender req absent heard h =
        let same = chosen-saving s sender req absent h.1 in
        (
          subst (λ o. Counted a o (saving sender req s)) (sym same)
              (record {
                same_owner = h.0.same_owner;
                same_n = h.0.same_n;
                same_f = h.0.same_f;
                same_data = h.0.same_data;
                same_parity = h.0.same_parity;
                senders = insert-Distinct sender.address req s.echo_req_repo h.0.senders;
                votes =
                    All-insert (λ x. Vote a (chosen s) x.0 x.1) sender.address req s.echo_req_repo
                      (inl heard) h.0.votes;
                said = h.0.said;
                given = h.0.given;
                outputs = h.0.outputs;
              }),
          elim h.1 [
            | inl fresh ↦ inl fresh
            | inr (own, here) ↦ inr (
              own,
              ground (
                arith,
                absent,
                here,
                address_eq.beq_iff sender.address s.owner.address,
                lookup-insert sender.address s.owner.address req s.echo_req_repo,
              ),
            )
          ],
        )
