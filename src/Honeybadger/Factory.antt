-- ===== src/Honeybadger/Factory.antt =====
-- honeybadger/acs.go: the factory of common subsets that a node gives to its `HoneyBadger`. The channels
-- and the broadcaster that it hands on are not part of the state of an instance here.
use cleisthenes.Base.{ℕ, Bool, Option}
use cleisthenes.Base.Go.{done, after}
use cleisthenes.Binary.{Binary}
use cleisthenes.Member.{Member, MemberMap}
use cleisthenes.Config.{Io, ConfigGo, get_config}
use cleisthenes.Bba.State as BbaState
use cleisthenes.Rbc.State as RbcState
use cleisthenes.Acs.State.{Acs}
use cleisthenes.Acs.State as AcsState

-- `DefaultACSFactory`
pub record DefaultAcsFactory : Type 0 where
  pub n : ℕ
  pub f : ℕ
  pub acs_owner : Member
  pub member_map : MemberMap

-- `NewDefaultACSFactory`
unfoldable pub new_default_acs_factory : ℕ → ℕ → Member → MemberMap → DefaultAcsFactory
new_default_acs_factory n f acs_owner member_map = record {
  n = n;
  f = f;
  acs_owner = acs_owner;
  member_map = member_map;
}

-- `Create`: the sizes are those of the configuration, read twice, not those of the factory. `accepts`
-- is what `reedsolomon.New` answers, and `coin` the coin of the agreements.
unfoldable pub create :
    (ℕ → ℕ → Bool) → (ℕ → Binary) → Io → DefaultAcsFactory → ConfigGo (Option Acs)
unfolding AcsState.new RbcState.new BbaState.new
create accepts coin io factory p = after (get_config io p) (λ conf. λ q.
    after (get_config io q) (λ conf'. λ r.
      let n = conf.honey_badger.network_size in
      let f = conf'.honey_badger.byzantine in
      let make_rbc = λ (m : Member). RbcState.new accepts n f factory.acs_owner m in
      let make_bba = λ (m : Member). BbaState.new n f factory.acs_owner m coin in
      done (AcsState.new make_rbc make_bba n f factory.acs_owner factory.member_map) r))
