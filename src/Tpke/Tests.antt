-- ===== src/Tpke/Tests.antt =====
-- tpke/: a library whose shares are numbers, and whose messages need two of them.
use cleisthenes.Base.{ℕ, ◌≡◌, refl, none, some, [], ◌∷◌, length, leb, if◌then◌else◌, insert}
use cleisthenes.Member.{Address}
use cleisthenes.Tpke.{Bytes, Library, DefaultTpke, accept_dec_share, decrypt, from_bytes}

abbrev library : Library ℕ ℕ ℕ Bytes ℕ
library = record {
  secret_key_share = length;
  public_key_set = λ bytes. some 2;
  public_key = λ pks. pks;
  encrypt = λ pk msg. some msg;
  serialize = λ ct. ct;
  cipher_text = λ bytes. bytes;
  decrypt_share = λ sk ct. sk;
  serialize_share = λ ds. ds ∷ [];
  decryption_share = length;
  decrypt = λ pks shares ct. if leb pks (length shares) then some ct else none;
  text = λ addr. addr.ip;
}

abbrev ready : DefaultTpke ℕ ℕ ℕ ℕ
ready = record {
  threshold = 2;
  public_key = 2;
  public_key_set = 2;
  secret_key = 1;
  dec_shares = [];
}

abbrev node : ℕ → Address
node port = record { ip = if leb port 1 then "a" else "b"; port = port }

abbrev accepted : DefaultTpke ℕ ℕ ℕ ℕ
accepted =
    accept_dec_share library (node 2) (1 ∷ []) (accept_dec_share library (node 1) (1 ∷ []) ready)

-- Two shares that were accepted are kept, but `Decrypt` does not use them.
decrypt-accepted :
    (length accepted.dec_shares ≡ 2)
    × (decrypt library [] (7 ∷ []) accepted ≡ none)
    × (decrypt library (("a", 1 ∷ []) ∷ ("b", 1 ∷ []) ∷ []) (7 ∷ []) ready ≡ some (7 ∷ []))
unfolding accept_dec_share decrypt from_bytes insert
decrypt-accepted = (refl, refl, refl)
