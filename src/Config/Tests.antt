-- ===== src/Config/Tests.antt =====
-- config/: a process that writes its configuration and reads it back, and the theorems at it.
use cleisthenes.Base.{ℕ, ◌≡◌, ◌⊎◌, refl, true, false, Option, none, some, List, [], ◌∷◌, take}
use cleisthenes.Base.Go.{done, panic}
use cleisthenes.Config.{
  Config, default_config, Io, write_failed, Process, get_config, file_exists, open_file, encode,
  remove_old, write_config_file,
}
use cleisthenes.Config.Files.{write_config_file-loses, get_config-missing}

abbrev custom : Config
custom = record default_config { members = record { addresses = "localhost:9000" ∷ [] } }

abbrev decode_byte : List ℕ → Option Config
decode_byte [] = none
decode_byte (code ∷ text) = some custom

abbrev io : Io
io = record {
  mkdir = true;
  remove = true;
  create = true;
  chmod = true;
  write = none;
  lstat_fails = false;
  marshal = λ config. some (7 ∷ []);
  decode = decode_byte;
  parses = λ text. true;
  unmarshal = λ text config. (custom, true);
}

abbrev full_disk : Io
full_disk = record io { marshal = λ config. some (7 ∷ 8 ∷ []); write = some 1 }

abbrev old : Process
old = record { file = some (5 ∷ []); loaded = false; current = default_config }

abbrev missing : Process
missing = record { file = none; loaded = false; current = default_config }

abbrev partial : Process
partial = record { file = some (7 ∷ []); loaded = false; current = default_config }

write_config_file-loses_example :
    (partial.file ≡ none)
    ⊎ ((partial.file ≡ some [])
        ⊎ ((text : List ℕ) × (k : ℕ) × (full_disk.marshal custom ≡ some text)
            × (full_disk.write ≡ some k)
            × (partial.file ≡ some (take k text))))
write_config_file-loses_example =
    write_config_file-loses full_disk custom old partial (5 ∷ []) write_failed refl refl refl
      (unfold write_config_file remove_old file_exists open_file encode in refl)

get_config-missing_example :
    (q : Process) × (get_config io missing ≡ panic q)
    × ((file : Option (List ℕ))
        → get_config io (record q { file = file }) ≡ done default_config (record q { file = file }))
get_config-missing_example = get_config-missing io missing refl refl
