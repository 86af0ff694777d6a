-- ===== src/Rbc/Requests.antt =====
-- rbc/rbc.go: what `shard` and `makeRequest` have done when they return no error.
use mathlib.Core.List.{Memᴰ}
use mathlib.Core.Option.{some-injective}
use cleisthenes.Base.{
  ℕ, zero, suc, ◌≡◌, inl, inr, refl, sym, ap, subst, Option, some, List, [], ◌∷◌, get_elem?, nat_eq,
  Option-cases, arith,
}
use cleisthenes.Rbc.Merkle.{Bytes, Index, Data}
use cleisthenes.Rbc.State.{ValRequest, ok}
use cleisthenes.Rbc.Decode.{Env}
use cleisthenes.Rbc.Input.{wrap, requests_for, shard, make_request}

pub get_elem?-wrap :
    (shards : List Bytes) (i : ℕ) (d : Data)
    → get_elem? (wrap shards) i ≡ some d
    → get_elem? shards i ≡ some d.content
unfolding wrap
get_elem?-wrap [] i d e = absurd (ground (arith, e))
get_elem?-wrap (s ∷ shards) zero d e =
    ap some (ap (λ x. x.content) (some-injective (record { content = s }) d e))
get_elem?-wrap (s ∷ shards) (suc i) d e = get_elem?-wrap shards i d e

-- A request is made from a shard and its path.
pub record Made (path : Data → Option (List Bytes × List Index)) (shards : List Data)
    (req : ValRequest) : Type 0 where
  pub inside : Memᴰ req.shard shards
  pub path_of : path req.shard ≡ some (req.root_path, req.indexes)

Made-tail :
    (path : Data → Option (List Bytes × List Index)) (d : Data) (shards : List Data)
    (req : ValRequest)
    → Made path shards req
    → Made path (d ∷ shards) req
Made-tail path d shards req m = record { inside = Memᴰ.tail m.inside; path_of = m.path_of }

pub requests_for-Made :
    (root : Bytes) (path : Data → Option (List Bytes × List Index)) (shards : List Data)
    (reqs : List ValRequest)
    → requests_for root path shards ≡ some reqs
    → (req : ValRequest) → Memᴰ req reqs
    → Made path shards req
unfolding requests_for
requests_for-Made root path [] reqs e req inside =
    elim (subst (Memᴰ req) (sym (some-injective [] reqs e)) inside) [ ]
requests_for-Made root path (d ∷ shards) reqs e req inside = elim (Option-cases (path d)) [
  | inl bad ↦ absurd (ground (arith, bad, e))
  | inr (p, good) ↦ elim (Option-cases (requests_for root path shards)) [
    | inl bad ↦ absurd (ground (arith, good, bad, e))
    | inr (more, rest) ↦
        let first : ValRequest = record {
          root_hash = root;
          shard = d;
          root_path = p.0;
          indexes = p.1;
        } in
        let same : first ∷ more ≡ reqs = ground (arith, good, rest, e) in
        elim (subst (Memᴰ req) (sym same) inside) [
          | Memᴰ.head e' ↦
              subst (Made path (d ∷ shards)) (sym e')
                (record { inside = Memᴰ.head refl; path_of = good })
          | Memᴰ.tail later ↦
              Made-tail path d shards req (requests_for-Made root path shards more rest req later)
        ]
  ]
]

module _ (env : Env) where
  pub record Shared (bytes : Bytes) (shards : List Data) : Type 0 where
    pub pieces : List Bytes
    pub coded : List Bytes
    pub split_is : env.split bytes ≡ some pieces
    pub encode_is : env.encode pieces ≡ some coded
    pub wrapped : shards ≡ wrap coded

  pub shard-Shared :
      (bytes : Bytes) (shards : List Data) → shard env bytes ≡ ok shards → Shared bytes shards
  unfolding shard
  shard-Shared bytes shards e = elim (Option-cases (env.split bytes)) [
    | inl bad ↦ absurd (ground (arith, bad, e))
    | inr (pieces, good) ↦ elim (Option-cases (env.encode pieces)) [
      | inl bad ↦ absurd (ground (arith, good, bad, e))
      | inr (coded, good') ↦ record {
        pieces = pieces;
        coded = coded;
        split_is = good;
        encode_is = good';
        wrapped = ground (arith, good, good', e);
      }
    ]
  ]

  pub record Requested (shards : List Data) (reqs : List ValRequest) : Type 0 where
    pub root : Bytes
    pub path : Data → Option (List Bytes × List Index)
    pub tree_is : env.tree shards ≡ some (root, path)
    pub requests_are : requests_for root path shards ≡ some reqs

  pub make_request-Requested :
      (shards : List Data) (reqs : List ValRequest)
      → make_request env shards ≡ ok reqs
      → Requested shards reqs
  unfolding make_request
  make_request-Requested shards reqs e = elim (Option-cases (env.tree shards)) [
    | inl bad ↦ absurd (ground (arith, bad, e))
    | inr (made, good) ↦ elim (Option-cases (requests_for made.0 made.1 shards)) [
      | inl bad ↦ absurd (ground (arith, good, bad, e))
      | inr (rs, good') ↦ record {
        root = made.0;
        path = made.1;
        tree_is = good;
        requests_are = ground (arith, good, good', e);
      }
    ]
  ]
