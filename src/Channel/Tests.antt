-- ===== src/Channel/Tests.antt =====
-- A channel with two places.
use cleisthenes.Base.{ℕ, ◌≡◌, refl, [], ◌∷◌}
use cleisthenes.Base.Go.{done, block, final, after}
use cleisthenes.Rbc.State.{DataMessage}
use cleisthenes.Channel.{DataChannel, new_data_channel, send_data, receive_data}

abbrev data_of : ℕ → DataMessage
data_of b = record {
  member = record { address = record { ip = "localhost"; port = b } };
  bytes = b ∷ [];
}

abbrev full : DataChannel
full = final (after (send_data (data_of 1) (new_data_channel 2)) (λ _. send_data (data_of 2)))

-- The third send waits, and the oldest message comes out first.
full-runs :
    (send_data (data_of 3) full ≡ block full)
    × (receive_data full ≡ done (data_of 1) (record full { buffer = data_of 2 ∷ [] }))
unfolding new_data_channel send_data receive_data
full-runs = (refl, refl)
