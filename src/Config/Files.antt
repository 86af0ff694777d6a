-- ===== src/Config/Files.antt =====
-- config/: what is in the configuration file after `Init`, and what `Get` makes of it.
use cleisthenes.Base.{
  ℕ, ◌≡◌, ◌⊎◌, refl, inl, inr, true, false, Option, none, some, List, [], take, Bool-cases,
  Option-cases, arith,
}
use cleisthenes.Base.Go.{done, fail, panic}
use cleisthenes.Config.{
  Config, Io, Error, Process, load, get_config, file_exists, open_file, encode, remove_old,
  write_config_file,
}

module _ (io : Io) (config : Config) (q : Process) where
  abbrev Lost : Type 0
  Lost =
      (q.file ≡ none)
      ⊎ ((q.file ≡ some [])
          ⊎ ((text : List ℕ) × (k : ℕ) × (io.marshal config ≡ some text)
              × (io.write ≡ some k)
              × (q.file ≡ some (take k text))))

  encode-loses : (p : Process) (e : Error) → p.file ≡ some [] → encode io config p ≡ fail e q → Lost
  unfolding encode
  encode-loses p e empty failed = elim (Option-cases (io.marshal config)) [
    | inl bad ↦ inr (inl (ground (arith, failed, bad, empty)))
    | inr (text, good) ↦ elim (Option-cases io.write) [
      | inl all ↦ absurd (ground (arith, failed, good, all))
      | inr (k, short) ↦ inr (inr (text, k, good, short, ground (arith, failed, good, short)))
    ]
  ]

-- If `Init` fails after the directory is there and the old file can be removed, the configuration that
-- the file held is gone: there is no file, or an empty one, or one with the first bytes of the
-- encoding of the new configuration.
pub write_config_file-loses :
    (io : Io) (config : Config) (p q : Process) (old : List ℕ) (e : Error)
    → io.mkdir ≡ true
    → io.remove ≡ true
    → p.file ≡ some old
    → write_config_file io config p ≡ fail e q
    → (q.file ≡ none)
      ⊎ ((q.file ≡ some [])
          ⊎ ((text : List ℕ) × (k : ℕ) × (io.marshal config ≡ some text)
              × (io.write ≡ some k)
              × (q.file ≡ some (take k text))))
unfolding write_config_file remove_old file_exists open_file
write_config_file-loses io config p q old e mkdir remove there failed =
    elim (Bool-cases io.create) [
      | inr off ↦ inl (ground (arith, mkdir, remove, there, failed, off))
      | inl made ↦ elim (Bool-cases io.chmod) [
        | inr off ↦ inl (ground (arith, mkdir, remove, there, failed, made, off))
        | inl on ↦
            encode-loses io config q (record p { file = some [] }) e refl
              (ground (arith, mkdir, remove, there, failed, made, on))
      ]
    ]

-- If there is no configuration file, the first `Get` of a process panics. Every later `Get` then returns
-- the configuration that the process began with, whatever the file holds by then.
pub get_config-missing :
    (io : Io) (p : Process)
    → p.loaded ≡ false
    → p.file ≡ none
    → (q : Process) × (get_config io p ≡ panic q)
      × ((file : Option (List ℕ))
          → get_config io (record q { file = file }) ≡ done p.current (record q { file = file }))
unfolding get_config load
get_config-missing io p fresh missing =
    (record p { loaded = true }, ground (arith, fresh, missing), λ file. refl)
