-- ===== src/Storage.antt =====
-- crates/ruxmsg-core/src/storage.rs: the identity seed in a credential store. A store is a state
-- with the three operations of the trait; reading does not change it.
pub mod Kept
use ruxmsg.Prelude.{
  ℕ, String, Option, some, none, Bool, true, false, is_some, ◌==◌, ◌&&◌, if◌then◌else◌, length,
  bytes_eq, Result, ok, err, ◌>>=◌, ◌>>◌, storage,
}
use ruxmsg.Protocol.{Bytes}
use ruxmsg.Crypto.{IdentityKeypair}

pub record SecretStore (S : Type 0) : Type 0 where
  pub ensure_persistent : S → Result (Unit {0})
  pub get_secret : S → String → Result (Option Bytes)
  pub set_secret : S → String → Bytes → S × Result (Unit {0})

pub record IdentityKeyStore (S : Type 0) : Type 0 where
  pub secrets : S
  pub account : String

-- `try_into()` to 32 bytes.
unfoldable pub seed_of : Bytes → Result IdentityKeypair
seed_of bytes =
    if length bytes == 32
    then ok (record { secret = bytes })
    else err (storage "stored identity seed has the wrong length")

module _ {S : Type 0} (store : SecretStore S) where
  unfoldable pub load_from : Option Bytes → Result (Option IdentityKeypair)
  load_from none = ok none
  load_from (some bytes) = seed_of bytes >>= λ identity. ok (some identity)

  unfoldable pub load : IdentityKeyStore S → Result (Option IdentityKeypair)
  load st = do
    store.ensure_persistent st.secrets
    found ← store.get_secret st.secrets st.account
    load_from found

  -- What was read back after a write, compared with what was written.
  unfoldable pub check_stored : Bytes → Option Bytes → Result (Unit {0})
  check_stored seed none = err (storage "credential store did not return the saved identity")
  check_stored seed (some stored) =
      if length stored == length seed && bytes_eq stored seed
      then ok tt
      else err (storage "credential store did not return the saved identity")

  -- The outcome of the write, and the check after it.
  unfoldable pub after_write : String → Bytes → S × Result (Unit {0}) → Result (Unit {0})
  after_write account seed (secrets, written) = do
    written
    stored ← store.get_secret secrets account
    check_stored seed stored

  unfoldable pub save :
      IdentityKeypair → IdentityKeyStore S → IdentityKeyStore S × Result (Unit {0})
  save identity st = elim (store.ensure_persistent st.secrets) [
    | err e ↦ (st, err e)
    | ok _ ↦
        let w = store.set_secret st.secrets st.account identity.secret in
        (record st { secrets = w.0 }, after_write st.account identity.secret w)
  ]

  unfoldable pub saved :
      IdentityKeypair
      → IdentityKeyStore S × Result (Unit {0})
      → IdentityKeyStore S × Result IdentityKeypair
  saved identity (st, ok _) = (st, ok identity)
  saved identity (st, err e) = (st, err e)

  -- `generated` is what `IdentityKeypair::generate` draws.
  unfoldable pub load_or_generate :
      IdentityKeypair → IdentityKeyStore S → IdentityKeyStore S × Result IdentityKeypair
  load_or_generate generated st = elim (load st) [
    | err e ↦ (st, err e)
    | ok (some identity) ↦ (st, ok identity)
    | ok none ↦ saved generated (save generated st)
  ]
