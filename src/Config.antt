-- ===== src/Config.antt =====
-- config/: the settings of a node and the file that keeps them. YAML, viper and the file system are
-- third-party; each call of them succeeds or fails as the parameter `Io` says.
pub mod Files
mod Tests
use cleisthenes.Base.{
  ℕ, String, Bool, true, false, not, Option, none, some, List, [], ◌∷◌, take, if◌then◌else◌,
}
use cleisthenes.Base.Go.{Outcome, Go, done, fail, panic, after}

-- `Identity`
pub record Identity : Type 0 where
  pub address : String

-- `HoneyBadger`; the interval is in nanoseconds
pub record HoneyBadger : Type 0 where
  pub network_size : ℕ
  pub byzantine : ℕ
  pub batch_size : ℕ
  pub propose_interval : ℕ

-- `Members`
pub record Members : Type 0 where
  pub addresses : List String

-- `Tpke`
pub record Tpke : Type 0 where
  pub master_public_key : String
  pub threshold : ℕ

-- `Config`
pub record Config : Type 0 where
  pub identity : Identity
  pub honey_badger : HoneyBadger
  pub members : Members
  pub tpke : Tpke

-- `defaultConfig`
abbrev pub default_config : Config
default_config = record {
  identity = record { address = "localhost:15555" };
  honey_badger = record {
    network_size = 10;
    byzantine = 3;
    batch_size = 3;
    propose_interval = 2000000000;
  };
  members = record { addresses = "localhost:8080" ∷ "localhost:8081" ∷ [] };
  tpke = record { master_public_key = "asdf"; threshold = 3 };
}

-- What the calls of a run of the code return. `write` answers for the write to the file: `none`
-- if all is written, and otherwise an error after so many bytes, which stay in the file. `parses` is whether viper can read the text; `unmarshal` writes it over a
-- configuration, and may stop with an error half-way.
pub record Io : Type 0 where
  pub mkdir : Bool
  pub remove : Bool
  pub create : Bool
  pub chmod : Bool
  pub write : Option ℕ
  pub lstat_fails : Bool
  pub marshal : Config → Option (List ℕ)
  pub decode : List ℕ → Option Config
  pub parses : List ℕ → Bool
  pub unmarshal : List ℕ → Config → Config × Bool

pub data Error : Type 0 where
  mkdir_failed remove_failed open_failed chmod_failed write_failed : Error
  encode_failed no_file decode_failed : Error

-- The process and the file at `configPath`. `loaded` is whether `once` has run its function, and
-- `current` is the variable `defaultConfig`, which reading a file overwrites.
pub record Process : Type 0 where
  pub file : Option (List ℕ)
  pub loaded : Bool
  pub current : Config

abbrev pub ConfigGo : Type 0 → Type 0
ConfigGo A = Go Error Process A

module _ (io : Io) where
  -- The function that `once` runs. `sync.Once` counts a panic as a run.
  unfoldable pub load : ConfigGo (Unit {0})
  load p =
      let q = record p { loaded = true } in
      elim p.file [
        | none ↦ panic q
        | some text ↦
            let (config, complete) = io.unmarshal text p.current in
            if io.parses text
            then (if complete
                then done tt (record q { current = config })
                else panic (record q { current = config }))
            else panic q
      ]

  -- `Get`
  unfoldable pub get_config : ConfigGo Config
  get_config p = if p.loaded then done p.current p else after (load p) (λ _. λ q. done q.current q)

  -- `fileExists`: an error other than a missing file counts as a file.
  unfoldable pub file_exists : Process → Bool
  file_exists p = elim p.file [ some _ ↦ true | none ↦ io.lstat_fails ]

  -- `openFile`, which makes a new file: `O_EXCL` refuses one that is there. Nothing looks at the error
  -- of the `Remove` after a failed `Chmod`.
  unfoldable pub open_file : ConfigGo (Unit {0})
  open_file p = elim p.file [
    | some _ ↦ fail open_failed p
    | none ↦
        if io.create
        then (if io.chmod
            then done tt (record p { file = some [] })
            else fail chmod_failed (record p { file = if io.remove then none else some [] }))
        else fail open_failed p
  ]

  -- `encode`
  unfoldable pub encode : Config → ConfigGo (Unit {0})
  encode config p = elim (io.marshal config) [
    | none ↦ fail encode_failed p
    | some text ↦ elim io.write [
      | none ↦ done tt (record p { file = some text })
      | some k ↦ fail write_failed (record p { file = some (take k text) })
    ]
  ]

  -- The guarded `Remove` of `writeConfigFile`
  unfoldable pub remove_old : ConfigGo (Unit {0})
  unfolding file_exists
  remove_old p =
      if file_exists p
      then (if io.remove then done tt (record p { file = none }) else fail remove_failed p)
      else done tt p

  -- `writeConfigFile`
  unfoldable pub write_config_file : Config → ConfigGo (Unit {0})
  write_config_file config p =
      if io.mkdir
      then after (remove_old p) (λ _. λ q. after (open_file q) (λ _. encode config))
      else fail mkdir_failed p

  -- `readConfigFile`, for the text of the file that the path names, if there is one
  unfoldable pub read_config_file : Option (List ℕ) → ConfigGo Config
  read_config_file none p = fail no_file p
  read_config_file (some text) p = elim (io.decode text) [
    | none ↦ fail decode_failed p
    | some config ↦ done config p
  ]

  -- `Init`; the path is `none` if it is empty, and otherwise comes with the text that it names.
  unfoldable pub init : Option (Option (List ℕ)) → ConfigGo (Unit {0})
  init none p = write_config_file p.current p
  init (some custom) p = after (read_config_file custom p) write_config_file
