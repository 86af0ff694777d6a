-- ===== src/Honeybadger/Routing.antt =====
-- honeybadger/honeybadger.go: which instance a message or a contribution reaches.
use cleisthenes.Base.{ℕ, suc, ◌≡◌, ◌≢◌, none, some, lookup, insert, lookup-insert, nat_eq, arith}
use cleisthenes.Base.Go.{done, fail}
use cleisthenes.Member.{address_eq}
use cleisthenes.Honeybadger.{acs_exists, HoneyBadger, get_acs}

module _ {Acs : Type 0} where
  -- If the current epoch has no instance and the factory makes one, a request for the current
  -- epoch keeps the new instance under that epoch. From then on a request for any epoch, the
  -- current one or another, gets this instance and creates none.
  pub get_acs_current :
      (hb : HoneyBadger Acs) (a : Acs)
      → lookup hb.epoch hb.acs_repository ≡ none
      → hb.factory hb.created ≡ some a
      → (hb' : HoneyBadger Acs) × (get_acs hb.epoch hb ≡ done hb.epoch hb')
        × (lookup hb.epoch hb'.acs_repository ≡ some a)
        × ((e : ℕ) → get_acs e hb' ≡ done hb.epoch hb')
  unfolding get_acs
  get_acs_current hb a absent made =
      let kept = lookup-insert hb.epoch hb.epoch a hb.acs_repository in
      let same = nat_eq.beq_iff hb.epoch hb.epoch in
      (
        record hb {
          acs_repository = insert hb.epoch a hb.acs_repository;
          created = suc hb.created;
        },
        ground (arith, absent, made),
        ground (arith, kept, same),
        λ e. ground (arith, kept, same),
      )

  -- While the current epoch has no instance, a request for another epoch makes a new instance
  -- each time: the first is kept under that epoch, and every later one is refused, although the
  -- epoch has its instance.
  pub get_acs_other :
      (hb : HoneyBadger Acs) (e : ℕ) (a b : Acs)
      → e ≢ hb.epoch
      → lookup hb.epoch hb.acs_repository ≡ none
      → lookup e hb.acs_repository ≡ none
      → hb.factory hb.created ≡ some a
      → hb.factory (suc hb.created) ≡ some b
      → (hb' : HoneyBadger Acs) × (get_acs e hb ≡ done e hb')
        × (lookup e hb'.acs_repository ≡ some a)
        × (get_acs e hb' ≡ fail (acs_exists e) (record hb' { created = suc hb'.created }))
  unfolding get_acs
  get_acs_other hb e a b other absent absent' made made' =
      let kept = lookup-insert e e a hb.acs_repository in
      let still = lookup-insert e hb.epoch a hb.acs_repository in
      let same = nat_eq.beq_iff e e in
      let differ = nat_eq.beq_iff e hb.epoch in
      (
        record hb { acs_repository = insert e a hb.acs_repository; created = suc hb.created },
        ground (arith, absent, absent', made),
        ground (arith, kept, same),
        ground (arith, kept, still, same, differ, other, absent, made'),
      )
