-- ===== src/Honeybadger/Tests.antt =====
-- honeybadger/: the theorems at a node without peers, whose instances count their calls.
use mathlib.Core.List.{Memᴰ}
use cleisthenes.Base.{
  ℕ, suc, ◌≡◌, ◌⊎◌, refl, true, false, none, some, List, [], ◌∷◌, ◌++◌, GoMap, values, lookup,
  nat_eq, arith,
}
use cleisthenes.Base.Go.{done, fail}
use cleisthenes.Member.{Member, address_eq, member_eq, new_member_map}
use cleisthenes.Honeybadger.{acs_exists, BatchMessage, AcsOps, Tpke, HoneyBadger, get_acs, on_batch}
use cleisthenes.Honeybadger.Batches.{decrypted_at, on_batch_result}
use cleisthenes.Honeybadger.Routing.{get_acs_current, get_acs_other}

abbrev node : ℕ → Member
node port = record { address = record { ip = "localhost"; port = port } }

abbrev counter : AcsOps ℕ
counter = record {
  handle_input = λ bytes calls. (suc calls, none);
  handle_message = λ sender msg calls. (suc calls, none);
}

abbrev plain : Tpke
plain = record { encrypt = λ txs. some (7 ∷ []); decrypt = λ enc. some enc }

abbrev fresh : GoMap ℕ ℕ → HoneyBadger ℕ
fresh acs_repository = record {
  acs_repository = acs_repository;
  member_map = new_member_map;
  tpk = plain;
  epoch = 0;
  on_consensus_flag = true;
  stop_flag = false;
  results = [];
  factory = λ i. some i;
  created = 0;
}

abbrev batch : BatchMessage
batch = record { epoch = 3; batch = (node 1, 5 ∷ []) ∷ (node 2, 6 ∷ []) ∷ [] }

get_acs_current_example :
    (hb' : HoneyBadger ℕ) × (get_acs 0 (fresh []) ≡ done 0 hb')
    × (lookup 0 hb'.acs_repository ≡ some 0)
    × ((e : ℕ) → get_acs e hb' ≡ done 0 hb')
get_acs_current_example = get_acs_current (fresh []) 0 (unfold lookup in refl) refl

get_acs_other_example :
    (hb' : HoneyBadger ℕ) × (get_acs 5 (fresh []) ≡ done 5 hb')
    × (lookup 5 hb'.acs_repository ≡ some 0)
    × (get_acs 5 hb' ≡ fail (acs_exists 5) (record hb' { created = suc hb'.created }))
get_acs_other_example =
    get_acs_other (fresh []) 5 0 1 (ground arith) (unfold lookup in refl) (unfold lookup in refl)
      refl refl

on_batch_result_example :
    (hb' : HoneyBadger ℕ) × (on_batch batch (fresh []) ≡ done tt hb')
    × (hb'.on_consensus_flag ≡ false)
    × (((hb'.results ≡ [])
          × ((enc : List ℕ) × Memᴰ enc (values batch.batch) × (plain.decrypt enc ≡ none)))
        ⊎ ((out : GoMap Member (List ℕ)) × (hb'.results
              ≡ [] ++ record { epoch = 3; batch = out } ∷ [])
            × ((k : Member) → lookup k out ≡ decrypted_at plain (lookup k batch.batch) none)))
on_batch_result_example = on_batch_result (fresh []) batch (refl, (refl, tt))
