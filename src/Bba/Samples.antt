-- ===== src/Bba/Samples.antt =====
-- Data for the runs of instances in Tests and Network/Tests.
use cleisthenes.Base.{ℕ, ◌%◌, refl, true, false, Option, none, some, List, [], ◌∷◌, ◌==◌}
use cleisthenes.Binary.{Binary}
use cleisthenes.Member.{Member}
use cleisthenes.Bba.Handlers.{Json}
use cleisthenes.Bba.Transport.{RoundTrips}

abbrev marshal_binary : Binary → Option (List ℕ)
marshal_binary true = some (1 ∷ [])
marshal_binary false = some (0 ∷ [])

abbrev unmarshal_binary : List ℕ → Option Binary
unmarshal_binary (code ∷ []) = some (code == 1)
unmarshal_binary _ = none

abbrev pub json : Json
json = record { marshal = marshal_binary; unmarshal = unmarshal_binary }

pub json-RoundTrips : RoundTrips json
json-RoundTrips true = (1 ∷ [], refl, refl)
json-RoundTrips false = (0 ∷ [], refl, refl)

abbrev pub node : ℕ → Member
node port = record { address = record { ip = "localhost"; port = port } }

-- One in the odd rounds
abbrev pub coin : ℕ → Binary
coin round = round % 2 == 1
