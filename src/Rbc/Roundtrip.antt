-- ===== src/Rbc/Roundtrip.antt =====
-- rbc/rbc.go: `shard` and `makeRequest`, which cut a value, against `tryDecodeValue`, which puts it
-- together. What is asked of the erasure code and of the Merkle tree is written in `Codes` and `Paths`.
mod Tests
use mathlib.Core.List.{Memᴰ}
use mathlib.Core.Option.{some-injective}
use cleisthenes.Base.{
  ℕ, zero, suc, ◌+◌, ◌≤◌, ◌<◌, ◌≡◌, inl, inr, refl, sym, ap, ◌∙◌, subst, Bool, true, false, Option,
  none, some, List, [], ◌∷◌, ◌++◌, length, get_elem?, replicate, take, map, count_if, contains,
  Distinct, nat_eq, length-le-Distinct, length-append, All, bytes_beq, Option-cases, append_assoc,
  take-append, All-map, arith,
}
use cleisthenes.Rbc.Merkle.{Bytes, Index, Data, order_of_data}
use cleisthenes.Rbc.State.{ValRequest, Result, ok, err}
use cleisthenes.Rbc.Decode.{Env, decode, place_shards, join}
use cleisthenes.Rbc.Input.{wrap, requests_for, shard, make_request}
use cleisthenes.Rbc.Shards.{
  present, Agrees, PresentAt, replicate-Agrees, count-PresentAt, Fits, Placed, place_shards-Placed,
}
use cleisthenes.Rbc.Requests.{
  get_elem?-wrap, requests_for-Made, shard-Shared, make_request-Requested, Made, Shared, Requested,
}

-- The documented behaviour of the erasure code with k data and m parity shards: it gives k + m shards,
-- none empty; the data shards begin with the value; and k shards at their places bring back all.
pub record Codes (env : Env) (k m : ℕ) : Type 0 where
  pub count :
      (bytes : Bytes) (pieces shards : List Bytes)
      → env.split bytes ≡ some pieces
      → env.encode pieces ≡ some shards
      → length shards ≡ k + m
  pub full :
      (bytes : Bytes) (pieces shards : List Bytes)
      → env.split bytes ≡ some pieces
      → env.encode pieces ≡ some shards
      → All (λ shard. present shard ≡ true) shards
  pub padded :
      (bytes : Bytes) (pieces shards : List Bytes)
      → env.split bytes ≡ some pieces
      → env.encode pieces ≡ some shards
      → (padding : Bytes) × (join (take k shards) ≡ bytes ++ padding)
  pub repairs :
      (bytes : Bytes) (pieces shards got : List Bytes)
      → env.split bytes ≡ some pieces
      → env.encode pieces ≡ some shards
      → Agrees got shards
      → k ≤ count_if present got
      → env.reconstruct got ≡ some shards

-- The documented behaviour of the tree: the indexes of a shard spell a place that holds it.
abbrev pub Paths : Env → Type 0
Paths env =
    (shards : List Data) (root : Bytes) (path : Data → Option (List Bytes × List Index)) (d : Data)
    (p : List Bytes × List Index)
    → env.tree shards ≡ some (root, path)
    → Memᴰ d shards
    → path d ≡ some p
    → get_elem? shards (order_of_data p.1) ≡ some d

-- An ECHO under the root has its shard at the place.
pub record EchoAt (root : Bytes) (echos : List ValRequest) (i : ℕ) : Type 0 where
  pub echo : ValRequest
  pub inside : Memᴰ echo echos
  pub under : bytes_beq root echo.root_hash ≡ true
  pub there : order_of_data echo.indexes ≡ i

length-map : (f : ValRequest → ℕ) (xs : List ValRequest) → length (map f xs) ≡ length xs
length-map f [] = refl
length-map f (x ∷ xs) = ap suc (length-map f xs)

contains-order :
    (i : ℕ) (echos : List ValRequest) (echo : ValRequest)
    → Memᴰ echo echos
    → order_of_data echo.indexes ≡ i
    → contains i (map (λ e. order_of_data e.indexes) echos) ≡ true
contains-order i [] echo inside there = elim inside [ ]
contains-order i (e ∷ echos) echo (Memᴰ.head same) there =
    let here : order_of_data e.indexes ≡ i = ap (λ r. order_of_data r.indexes) (sym same) ∙ there in
    ground (arith, here)
contains-order i (e ∷ echos) echo (Memᴰ.tail later) there =
    ground (arith, contains-order i echos echo later there)

-- There are as many ECHOs as different places.
length-EchoAt :
    (root : Bytes) (echos : List ValRequest) (places : List ℕ)
    → Distinct places
    → ((i : ℕ) → contains i places ≡ true → EchoAt root echos i)
    → length places ≤ length echos
length-EchoAt root echos places once at =
    subst (λ n. length places ≤ n) (length-map (λ e. order_of_data e.indexes) echos)
      (length-le-Distinct (map (λ e. order_of_data e.indexes) echos) places once
        (λ i inside. let a = at i inside in contains-order i echos a.echo a.inside a.there))

module _ (env : Env) where
  -- Every request made from the shards has the shard of its place.
  make_request-Fits :
      (paths : Paths env) (coded : List Bytes) (reqs : List ValRequest)
      → make_request env (wrap coded) ≡ ok reqs
      → (req : ValRequest) → Memᴰ req reqs
      → get_elem? coded (order_of_data req.indexes) ≡ some req.shard.content
  make_request-Fits paths coded reqs e req inside =
      let r = make_request-Requested env (wrap coded) reqs e in
      let m = requests_for-Made r.root r.path (wrap coded) reqs r.requests_are req inside in
      get_elem?-wrap coded (order_of_data req.indexes) req.shard (
        paths (wrap coded) r.root r.path req.shard (req.root_path, req.indexes) r.tree_is m.inside
          m.path_of)

  -- The last steps of `tryDecodeValue`, when the shards are placed and reconstructed.
  decode-rebuilt :
      (k m : ℕ) (root bytes padding : Bytes) (echos : List ValRequest) (placed coded : List Bytes)
      → k ≤ length echos
      → place_shards root echos (replicate (k + m) []) ≡ some placed
      → env.reconstruct placed ≡ some coded
      → join (take k coded) ≡ bytes ++ padding
      → decode env root echos k m (length bytes) ≡ some (ok bytes)
  unfolding decode
  decode-rebuilt k m root bytes padding echos placed coded enough put back joined =
      let value = join (take k coded) in
      let grown : value ++ env.spare value ≡ bytes ++ (padding ++ env.spare value) =
        ap (λ v. v ++ env.spare value) joined ∙ append_assoc bytes padding (env.spare value) in
      let fits : length bytes ≤ length (value ++ env.spare value) =
        subst (λ v. length bytes ≤ length v) (sym grown)
          (omega (arith, length-append bytes (padding ++ env.spare value))) in
      let same : take (length bytes) (value ++ env.spare value) ≡ bytes =
        ap (take (length bytes)) grown ∙ take-append bytes (padding ++ env.spare value) in
      ground (arith, enough, put, back, fits, same)

  module _ (k m : ℕ) (codes : Codes env k m) (paths : Paths env) where
    -- Let `Codes` hold of the erasure code with k data and m parity shards, and `Paths` of the tree.
    -- Let `shard` cut a value and `makeRequest` make requests of its shards. If every ECHO under a root
    -- is one of these requests, and the ECHOs under it have k different places, then `tryDecodeValue`
    -- on these ECHOs, at the length of the value, returns the value: whatever other ECHOs there are,
    -- in whatever order, it neither fails nor panics.
    pub decode-make_request :
        (bytes : Bytes) (shards : List Data) (reqs : List ValRequest) (root : Bytes)
        (echos : List ValRequest) (places : List ℕ)
        → shard env bytes ≡ ok shards
        → make_request env shards ≡ ok reqs
        → All (λ echo. bytes_beq root echo.root_hash ≡ true → Memᴰ echo reqs) echos
        → Distinct places
        → ((i : ℕ) → contains i places ≡ true → EchoAt root echos i)
        → k ≤ length places
        → decode env root echos k m (length bytes) ≡ some (ok bytes)
    decode-make_request bytes shards reqs root echos places cut asked made once at enough =
        let s = shard-Shared env bytes shards cut in
        let fits : All (Fits root s.coded) echos =
          All-map (λ echo. bytes_beq root echo.root_hash ≡ true → Memᴰ echo reqs)
            (Fits root s.coded)
            (λ echo inside same.
              make_request-Fits paths s.coded reqs
                (subst (λ d. make_request env d ≡ ok reqs) s.wrapped asked) echo (inside same))
            echos made in
        let size = codes.count bytes s.pieces s.coded s.split_is s.encode_is in
        let start : Agrees (replicate (k + m) []) s.coded =
          subst (λ n. Agrees (replicate n []) s.coded) size (replicate-Agrees s.coded) in
        let (placed, put, p) =
          place_shards-Placed root s.coded echos (replicate (k + m) []) fits
            (codes.full bytes s.pieces s.coded s.split_is s.encode_is) start in
        let covered = count-PresentAt places placed once (λ i inside.
          let a = at i inside in
          subst (λ j. PresentAt j placed) a.there (p.covers a.echo a.inside a.under)) in
        let back =
          codes.repairs bytes s.pieces s.coded placed s.split_is s.encode_is p.agrees
            (omega (arith, enough, covered)) in
        let (padding, joined) = codes.padded bytes s.pieces s.coded s.split_is s.encode_is in
        decode-rebuilt k m root bytes padding echos placed s.coded
          (omega (arith, enough, length-EchoAt root echos places once at)) put back joined
