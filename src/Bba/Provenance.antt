-- ===== src/Bba/Provenance.antt =====
-- bba/bba.go: where the values of `binValueSet` and the decision come from. A request is known if
-- the instance made it itself or decoded it from a message that was delivered to it.
pub mod Schedules
use cleisthenes.Base.{
  ℕ, suc, ◌+◌, ◌*◌, ◌≤◌, ◌<◌, ◌≡◌, ◌⊎◌, inl, inr, refl, sym, subst, Bool, true, false, not, ◌||◌,
  List, [], ◌∷◌, ◌++◌, none, some, lookup, insert, keys, values, count_if, contains, Distinct,
  insert-Distinct, lookup-insert, if◌then◌else◌, arith, bool_eq, All, All-append, length, voters,
  length-voters, All-voters, All-insert, voters-Distinct, exists_outside,
}
use mathlib.Core.List.{Memᴰ}
use cleisthenes.Base.Go.{final}
use cleisthenes.Binary.{Binary}
use cleisthenes.Member.{Member, Address, address_eq}
use cleisthenes.Bba.BinarySet.{BinarySet, exist, union, to_list}
use cleisthenes.Bba.Request.{Result, Request, bval, ok, err, ReqRepository, IncomingRequest}
use cleisthenes.Bba.State.{BbaRequest, BbaMessage, Bba, new}
use cleisthenes.Bba.Handlers.{Json, process_payload}
use cleisthenes.Bba.Local.{count_by_value}
use cleisthenes.Bba.Run.{
  Event, take_req, take_bin_value, take_tryout_agreement, take_advance_round, message, input, close,
  run,
}
use cleisthenes.Bba.Rules.{Rules, request_of}
use cleisthenes.Bba.Keeps.{KnownEvent, run-keeps}
use cleisthenes.Bba.Quorum.{exist-union}

-- The request that a message decodes to, in front of others.
abbrev pub with_request : Member → Result (Request × ℕ) → List BbaRequest → List BbaRequest
with_request sender (ok (req, round)) l =
    record { sender = sender; payload = req; round = round } ∷ l
with_request sender (err e) l = l

-- The requests that the messages of a schedule bring.
abbrev pub delivered : Json → List Event → List BbaRequest
delivered json [] = []
delivered json (message sender msg ∷ es) =
    with_request sender (process_payload msg.round msg.type (json.unmarshal msg.payload))
      (delivered json es)
delivered json (_ ∷ es) = delivered json es

pub exist-to_list :
    (b : Binary) (bs : List Binary) (s : BinarySet) → to_list s ≡ b ∷ bs → exist b s ≡ true
unfolding exist to_list lookup
exist-to_list b bs [] h = cc
exist-to_list b bs ((c, true) ∷ s) h = ground (arith, bool_eq.beq_iff c b)
exist-to_list b bs ((c, false) ∷ s) h = ground (arith, exist-to_list b bs s)

module _ (me : Member) (known : List BbaRequest) where
  abbrev pub Origin : BbaRequest → Type 0
  Origin r = (r.sender ≡ me) ⊎ Memᴰ r known

  -- The address has a BVAL of the round for the value.
  abbrev pub Voted : ℕ → Binary → Address → Type 0
  Voted round v a =
      Origin (record { sender = record { address = a }; payload = bval v; round = round })

  -- At least 2f + 1 different addresses have one.
  pub record Backed (f round : ℕ) (v : Binary) : Type 0 where
    pub senders : List Address
    pub distinct : Distinct senders
    pub many : 2 * f + 1 ≤ length senders
    pub voted : All (Voted round v) senders

  module _ (f : ℕ) (coin : ℕ → Binary) where
    abbrev pub Waiting : Bba → Type 0
    Waiting s =
        (s.owner ≡ me)
        × (s.f ≡ f)
        × (s.coin_generator ≡ coin)
        × All Origin s.req_chan
        × All (λ ir. Origin (request_of ir)) s.incoming_bval_repo
        × All (λ ir. Origin (request_of ir)) s.incoming_aux_repo

    abbrev pub Votes : Bba → Type 0
    Votes s = Distinct (keys s.bval_repo) × All (λ e. Voted s.round e.1 e.0) s.bval_repo

    abbrev pub BackedSet : Bba → Type 0
    BackedSet s = (v : Binary) → exist v s.bin_value_set ≡ true → Backed f s.round v

    abbrev pub BackedDecision : Bba → Type 0
    BackedDecision s =
        s.done.value ≡ true → (round : ℕ) × Backed f round s.dec.value × (s.dec.value ≡ coin round)

    abbrev pub Traced : Bba → Type 0
    Traced s = Waiting s × Votes s × BackedSet s × BackedDecision s

    pub Backed-repo :
        (round : ℕ) (v : Binary) (r : ReqRepository)
        → count_by_value v r ≡ 2 * f + 1
        → Distinct (keys r)
        → All (λ e. Voted round e.1 e.0) r
        → Backed f round v
    Backed-repo round v r count distinct voted = record {
      senders = voters (bool_eq.beq v) r;
      distinct = voters-Distinct (bool_eq.beq v) r distinct;
      many = omega (arith, length-voters (bool_eq.beq v) r);
      voted =
          All-voters (λ e. Voted round e.1 e.0) (Voted round v) (bool_eq.beq v)
            (λ a w same h. subst (λ x. Voted round x a) (sym ((bool_eq.beq_iff v w).0 same)) h) r
            voted;
    }

    pub BackedSet-union :
        (s : Bba) (v : Binary)
        → Backed f s.round v
        → BackedSet s
        → (w : Binary) → exist w (union v s.bin_value_set) ≡ true
        → Backed f s.round w
    BackedSet-union s v b h w e =
        ground (arith, exist-union v w s.bin_value_set, bool_eq.beq_iff v w, h w, b)
