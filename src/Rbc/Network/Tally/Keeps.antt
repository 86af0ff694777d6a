-- ===== src/Rbc/Network/Tally/Keeps.antt =====
-- rbc/rbc.go: every event keeps what a node has counted of the ECHOs.
use cleisthenes.Base.{
  ℕ, ◌≤◌, ◌≡◌, inl, inr, sym, subst, false, some, List, GoMap, values, lookup-insert, All,
  All-append, ◌==◌, if_rule, arith,
}
use cleisthenes.Base.Go.{done, fail, block, panic, final}
use cleisthenes.Member.{Address, address_eq}
use cleisthenes.Rbc.Merkle.{Bytes}
use cleisthenes.Rbc.State.{ValRequest, echo, ready, ok, Rbc, set_content_length}
use cleisthenes.Rbc.Handlers.{share_message, decode_success, count_echos, echo_threshold}
use cleisthenes.Rbc.Decode.{Env, decode}
use cleisthenes.Rbc.Rules.{Rules, with_value}
use cleisthenes.Rbc.Keeps.{step-keeps, KnownEvent}
use cleisthenes.Rbc.Run.{Event, message, input}
use cleisthenes.Network.Sent.{Source, Kept}
use cleisthenes.Rbc.Network.{Node, rbc_protocol, source}
use cleisthenes.Rbc.Network.Votes.{
  EchoTrips, chosen, chosen-with_value, chosen-fresh, Says, echo-Says, ready-Says,
  messages_for-Says,
}
use cleisthenes.Rbc.Network.Tally.{
  Heard, AnyOutput, Counted, Tally, take_value-Counted, share-Tally, saving-Tally,
}

module _ (env : Env) where
  module _ (n f : ℕ) (bad : List Address) (last : GoMap Address Node) where
    output-Tally :
        (a : Address) (s : Rbc) (hash value : Bytes)
        → echo_threshold s ≤ count_echos hash s
        → decode env hash
            (values s.echo_req_repo)
            s.num_data_shards
            s.num_parity_shards
            s.content_length
          ≡ some (ok value)
        → Tally env n f bad last a s
        → Tally env n f bad last a (decode_success value s)
    unfolding decode_success chosen
    output-Tally a s hash value enough good h = (
      record {
        same_owner = h.0.same_owner;
        same_n = h.0.same_n;
        same_f = h.0.same_f;
        same_data = h.0.same_data;
        same_parity = h.0.same_parity;
        senders = h.0.senders;
        votes = h.0.votes;
        said = h.0.said;
        given = h.0.given;
        outputs = All-append (AnyOutput env n f bad last a (chosen s)) s.data_sent _ h.0.outputs (
          (
            hash,
            record {
              echos = s.echo_req_repo;
              size = s.content_length;
              senders = h.0.senders;
              votes = h.0.votes;
              enough = ground (arith, h.0.same_n, h.0.same_f, enough);
              decodes = rw (sym h.0.same_data, sym h.0.same_parity) good;
            },
          ),
          tt,
        );
      },
      h.1,
    )

    take_value-Tally :
        (a : Address)
        → EchoTrips env
        → (s : Rbc) (req : ValRequest) → s.val_received.value ≡ false
        → Tally env n f bad last a s
        → Tally env n f bad last a (share_message env (echo req) (with_value req s))
    take_value-Tally a trips s req fresh h =
        let votes_for = chosen-with_value s req in
        let counted =
          take_value-Counted env n f bad last a s req
            (subst (λ o. Counted env n f bad last a o s) (chosen-fresh s fresh) h.0) in
        share-Tally env n f bad last a (with_value req s) (echo req)
          (λ p typ t m.
            subst
              (λ o.
                Says env o (record { payload = p; content_length = s.content_length; type = typ }))
              (sym votes_for) (echo-Says env trips req p s.content_length typ t m))
          (
            subst (λ o. Counted env n f bad last a o (with_value req s)) (sym votes_for) counted,
            inr (
              req,
              ground (
                arith,
                lookup-insert s.owner.address s.owner.address req s.echo_req_repo,
                address_eq.beq_iff s.owner.address s.owner.address,
              ),
            ),
          )

    -- The other writes change neither the ECHOs nor what was said.
    Tally-Rules :
        (a : Address)
        → EchoTrips env
        → Rules env
            (λ sender req. Heard env n f bad last sender.address req)
            (Tally env n f bad last a)
    unfolding set_content_length chosen
    Tally-Rules a trips = record {
      writes = record {
        take_length =
            λ s k h. if_rule (Tally env n f bad last a) (s.content_length == 0) (λ _. h) (λ _. h);
        take_value = take_value-Tally a trips;
        save_echo = λ s sender req absent known h.
            saving-Tally env n f bad last a s sender req absent known h;
        save_ready = λ s sender hash absent h. h;
        share_ready = λ s hash unsent h.
            share-Tally env n f bad last a _ (ready hash)
              (λ p typ t m. ready-Says env (chosen s) hash p s.content_length typ t) h;
        distribute = λ s proposer reqs {msgs} made h. (
          record {
            same_owner = h.0.same_owner;
            same_n = h.0.same_n;
            same_f = h.0.same_f;
            same_data = h.0.same_data;
            same_parity = h.0.same_parity;
            senders = h.0.senders;
            votes = h.0.votes;
            said = h.0.said;
            given =
                All-append (λ ms. All (λ m. Says env (chosen s) m.body) ms) s.distributed _
                  h.0.given (messages_for-Says env (chosen s) proposer s reqs made, tt);
            outputs = h.0.outputs;
          },
          h.1,
        );
      };
      output = λ s hash value undone readys echos good h. output-Tally a s hash value echos good h;
    }

    event-Known :
        (a : Address) (trips : EchoTrips env) (e : Event)
        → Source (rbc_protocol env) bad last (source env e)
        → KnownEvent (Tally-Rules a trips) e
    event-Known a trips (message sender msg) (inl faulty) = λ req e. inl faulty
    event-Known a trips (message sender msg) (inr (t, here, said)) =
        λ req e. inr (t, msg, here, said, e)
    event-Known a trips (input bytes) src = tt

    pub node-Kept :
        EchoTrips env
        → Kept
            (rbc_protocol env)
            bad
            (λ a node. Tally env n f bad last a (final node))
            (λ e. Unit)
            last
    node-Kept trips a (done _ s) e fine src h =
        step-keeps (Tally-Rules a trips) e s (event-Known a trips e src) h
    node-Kept trips a (fail _ s) e fine src h =
        step-keeps (Tally-Rules a trips) e s (event-Known a trips e src) h
    node-Kept trips a (block s) e fine src h = h
    node-Kept trips a (panic s) e fine src h = h
