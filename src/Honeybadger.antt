-- ===== src/Honeybadger.antt =====
-- honeybadger/honeybadger.go and honeybadger/acs.go: the instances of the common subset by epoch,
-- the routing of messages to them, and the result of an epoch. The common subset is behind the
-- interface `Acs`, as in the source; the threshold encryption is behind `Tpke`.
pub mod Routing
pub mod Batches
pub mod Factory
mod Tests
use cleisthenes.Base.{
  ℕ, suc, Bool, true, false, not, Option, none, some, List, [], ◌∷◌, ◌++◌, GoMap, lookup, insert,
  nat_eq, if◌then◌else◌,
}
use cleisthenes.Base.Go.{Outcome, Go, done, fail, block, panic, after}
use cleisthenes.Member.{Address, Member, MemberMap, address_eq, member_eq, member}

pub data Error : Type 0 where
  acs_exists : ℕ → Error
  create_failed encrypt_failed decrypt_failed bad_address no_member : Error

-- `BatchMessage` and `ResultMessage`
pub record BatchMessage : Type 0 where
  pub epoch : ℕ
  pub batch : GoMap Member (List ℕ)

-- `pb.Message` as far as this component reads it: `to_address` of the sender is done on arrival.
pub record Message : Type 0 where
  pub epoch : ℕ
  pub sender : Option Address
  pub payload : List ℕ

-- The interface `ACS`: a call changes the instance, and may return an error.
pub record AcsOps (Acs : Type 0) : Type 0 where
  pub handle_input : List ℕ → Acs → Acs × Option Error
  pub handle_message : Member → Message → Acs → Acs × Option Error

-- `Tpke`, as far as it is called here
pub record Tpke : Type 0 where
  pub encrypt : List (List ℕ) → Option (List ℕ)
  pub decrypt : List ℕ → Option (List ℕ)

-- `acsRepository`
abbrev pub AcsRepository : Type 0 → Type 0
AcsRepository Acs = GoMap ℕ Acs

-- `newACSRepository`
abbrev pub new_acs_repository : {Acs : Type 0} → AcsRepository Acs
new_acs_repository = []

-- `(*acsRepository).find`
abbrev pub find_acs : {Acs : Type 0} → ℕ → AcsRepository Acs → Option Acs
find_acs epoch r = lookup epoch r

-- `HoneyBadger`. `factory` answers the calls of `acsFactory.Create` in turn, and `created` counts
-- them; `results` logs what is sent to the result channel.
pub record HoneyBadger (Acs : Type 0) : Type 0 where
  pub acs_repository : AcsRepository Acs
  pub member_map : MemberMap
  pub tpk : Tpke
  pub epoch : ℕ  -- uint64
  pub on_consensus_flag : Bool
  pub stop_flag : Bool
  pub results : List BatchMessage
  pub factory : ℕ → Option Acs
  pub created : ℕ

abbrev pub HbGo : Type 0 → Type 0 → Type 0
HbGo Acs A = Go Error (HoneyBadger Acs) A

-- The loop of `handleBatchMessage`: the decrypted batch so far, and what is left of the batch
unfoldable pub decrypt_loop :
    Tpke → GoMap Member (List ℕ) → GoMap Member (List ℕ) → Option (GoMap Member (List ℕ))
decrypt_loop tpk decrypted [] = some decrypted
decrypt_loop tpk decrypted ((m, enc) ∷ batch) = elim (tpk.decrypt enc) [
  | none ↦ none
  | some tx ↦ decrypt_loop tpk (insert m tx decrypted) batch
]

module _ {Acs : Type 0} where
  -- `New`
  unfoldable pub new : MemberMap → (ℕ → Option Acs) → Tpke → HoneyBadger Acs
  new member_map factory tpk = record {
    acs_repository = new_acs_repository;
    member_map = member_map;
    tpk = tpk;
    epoch = 0;
    on_consensus_flag = false;
    stop_flag = false;
    results = [];
    factory = factory;
    created = 0;
  }

  -- `acsFactory.Create`
  unfoldable pub create : HbGo Acs Acs
  create hb = elim (hb.factory hb.created) [
    | none ↦ fail create_failed (record hb { created = suc hb.created })
    | some a ↦ done a (record hb { created = suc hb.created })
  ]

  -- `(*acsRepository).save`
  unfoldable pub save : ℕ → Acs → HbGo Acs (Unit {0})
  save epoch acs hb = elim (lookup epoch hb.acs_repository) [
    | some _ ↦ fail (acs_exists epoch) hb
    | none ↦ done tt (record hb { acs_repository = insert epoch acs hb.acs_repository })
  ]

  -- `getACS`. Its result is the epoch under which the instance is
  -- kept, since the source returns a pointer.
  unfoldable pub get_acs : ℕ → HbGo Acs ℕ
  unfolding create save
  get_acs epoch hb = elim (find_acs hb.epoch hb.acs_repository) [
    | some _ ↦ done hb.epoch hb
    | none ↦ after (create hb) (λ a. λ hb'. after (save epoch a hb') (λ _. λ hb''. done epoch hb''))
  ]

  -- A call of the instance kept under an epoch, which changes it in place.
  unfoldable pub call : ℕ → (Acs → Acs × Option Error) → HbGo Acs (Unit {0})
  call epoch method hb = elim (lookup epoch hb.acs_repository) [
    | none ↦ panic hb
    | some acs ↦
        let (acs', e) = method acs in
        let hb' = record hb { acs_repository = insert epoch acs' hb.acs_repository } in
        elim e [ none ↦ done tt hb' | some x ↦ fail x hb' ]
  ]

  module _ (ops : AcsOps Acs) where
    -- `HandleMessage`
    unfoldable pub handle_message : Message → HbGo Acs (Unit {0})
    unfolding member
    handle_message msg hb = after (get_acs msg.epoch hb) λ key hb'. elim msg.sender [
      | none ↦ fail bad_address hb'
      | some addr ↦ elim (member {E = Error} addr hb'.member_map) [
        | done (found, true) _ ↦ call key (ops.handle_message found msg) hb'
        | done (found, false) _ ↦ fail no_member hb'
        | fail e _ ↦ fail e hb'
        | block _ ↦ block hb'
        | panic _ ↦ panic hb'
      ]
    ]

    -- `propose`
    unfoldable pub propose : List (List ℕ) → HbGo Acs (Unit {0})
    propose tx_list hb = after (get_acs hb.epoch hb) λ key hb'. elim (hb'.tpk.encrypt tx_list) [
      | none ↦ fail encrypt_failed hb'
      | some bytes ↦ call key (ops.handle_input bytes) hb'
    ]

    -- `startConsensus` and `propose`: the first `case` of `run`
    unfoldable pub on_contribution : List (List ℕ) → HbGo Acs (Unit {0})
    on_contribution tx_list hb = propose tx_list (record hb { on_consensus_flag = true })

  -- `handleBatchMessage`. `resultSender.Send` can block in the source; here it ends and is logged.
  unfoldable pub handle_batch_message : BatchMessage → HbGo Acs (Unit {0})
  handle_batch_message msg hb = elim (decrypt_loop hb.tpk [] msg.batch) [
    | none ↦ fail decrypt_failed hb
    | some batch ↦
        done tt
          (record hb { results = hb.results ++ record { epoch = msg.epoch; batch = batch } ∷ [] })
  ]

  -- `handleBatchMessage`, its error dropped, and `finConsensus`: the second `case` of `run`
  unfoldable pub on_batch : BatchMessage → HbGo Acs (Unit {0})
  on_batch msg hb = elim (handle_batch_message msg hb) [
    | done _ hb' ↦ done tt (record hb' { on_consensus_flag = false })
    | fail _ hb' ↦ done tt (record hb' { on_consensus_flag = false })
    | block hb' ↦ block hb'
    | panic hb' ↦ panic hb'
  ]

  -- `Close`: the channel that it writes to has no buffer, and no goroutine reads it.
  unfoldable pub close : HbGo Acs (Unit {0})
  close hb = if hb.stop_flag then done tt hb else block (record hb { stop_flag = true })
