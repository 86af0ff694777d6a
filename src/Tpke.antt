-- ===== src/Tpke.antt =====
-- tpke/: the threshold encryption behind the interface `Tpke`: `DefaultTpke`, which keeps the
-- decryption shares that nodes send, and the mock. The encryption itself is the package tpke's and
-- enters, like JSON, as a parameter.
mod Tests
use cleisthenes.Base.{
  ℕ, String, Option, none, some, List, [], ◌∷◌, GoMap, insert, replicate, string_eq,
}
use cleisthenes.Member.{Address}

abbrev pub Bytes : Type 0
Bytes = List ℕ

-- What the code calls of the package tpke, and `Address.String`.
pub record Library (Sk Pk Pks Ct Ds : Type 0) : Type 0 where
  pub secret_key_share : Bytes → Sk
  pub public_key_set : Bytes → Option Pks
  pub public_key : Pks → Pk
  pub encrypt : Pk → Bytes → Option Ct
  pub serialize : Ct → Bytes
  pub cipher_text : Bytes → Ct
  pub decrypt_share : Sk → Ct → Ds
  pub serialize_share : Ds → Bytes
  pub decryption_share : Bytes → Ds
  pub decrypt : Pks → GoMap String Ds → Ct → Option Bytes
  pub text : Address → String

-- `DefaultTpke`: the shares are kept by the address of the node as text.
pub record DefaultTpke (Sk Pk Pks Ds : Type 0) : Type 0 where
  pub threshold : ℕ
  pub public_key : Pk
  pub public_key_set : Pks
  pub secret_key : Sk
  pub dec_shares : GoMap String Ds

module _ {Sk Pk Pks Ct Ds : Type 0} (lib : Library Sk Pk Pks Ct Ds) where
  -- `NewDefaultTpke`
  unfoldable pub new_default_tpke : ℕ → Bytes → Bytes → Option (DefaultTpke Sk Pk Pks Ds)
  new_default_tpke th sk_str pks_str = elim (lib.public_key_set pks_str) [
    | none ↦ none
    | some pks ↦ some (record {
      threshold = th;
      public_key = lib.public_key pks;
      public_key_set = pks;
      secret_key = lib.secret_key_share sk_str;
      dec_shares = [];
    })
  ]

  -- `AcceptDecShare`
  unfoldable pub accept_dec_share :
      Address → Bytes → DefaultTpke Sk Pk Pks Ds → DefaultTpke Sk Pk Pks Ds
  accept_dec_share addr dec_share t = record t {
    dec_shares = insert (lib.text addr) (lib.decryption_share dec_share) t.dec_shares;
  }

  -- `ClearDecShare`
  unfoldable pub clear_dec_share : DefaultTpke Sk Pk Pks Ds → DefaultTpke Sk Pk Pks Ds
  clear_dec_share t = record t { dec_shares = [] }

  -- `Encrypt`
  unfoldable pub encrypt : Bytes → DefaultTpke Sk Pk Pks Ds → Option Bytes
  encrypt msg t = elim (lib.encrypt t.public_key msg) [
    | none ↦ none
    | some encrypted ↦ some (lib.serialize encrypted)
  ]

  -- `DecShare`
  unfoldable pub dec_share : Bytes → DefaultTpke Sk Pk Pks Ds → Bytes
  dec_share ctb t = lib.serialize_share (lib.decrypt_share t.secret_key (lib.cipher_text ctb))

  -- The loop of `Decrypt`
  unfoldable pub from_bytes : GoMap String Bytes → GoMap String Ds → GoMap String Ds
  from_bytes [] ds = ds
  from_bytes ((id, share) ∷ shares) ds =
      from_bytes shares (insert id (lib.decryption_share share) ds)

  -- `Decrypt`: of the shares that it is given, not of those that were accepted.
  unfoldable pub decrypt : GoMap String Bytes → Bytes → DefaultTpke Sk Pk Pks Ds → Option Bytes
  unfolding from_bytes
  decrypt shares ct_bytes t =
      lib.decrypt t.public_key_set (from_bytes shares []) (lib.cipher_text ct_bytes)

-- `(*MockTpke).Encrypt`, given `json.Marshal`
unfoldable pub mock_encrypt : {Data : Type 0} → (Data → Option Bytes) → Data → Option Bytes
mock_encrypt marshal msg = marshal msg

-- `(*MockTpke).Decrypt`
unfoldable pub mock_decrypt : Bytes → Option Bytes
mock_decrypt enc = some enc

-- `(*MockTpke).DecShare`
unfoldable pub mock_dec_share : Bytes → Bytes
mock_dec_share ct_bytes = replicate 96 0
