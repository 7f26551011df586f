-- ===== src/Storage/Kept.antt =====
-- What `load_or_generate` gives is what the store keeps.
use ruxmsg.Prelude.{
  String, ◌≡◌, refl, sym, ap, ◌∙◌, subst, inl, inr, Option, some, none, ◌==◌, ◌&&◌, length,
  bytes_eq, bytes_eq→eq, Result, ok, err, ◌>>=◌, Error, storage, Result-cases, Option-cases,
  Bool-cases, arith,
}
use ruxmsg.Protocol.{Bytes}
use ruxmsg.Crypto.{IdentityKeypair}
use ruxmsg.Storage.{
  SecretStore, IdentityKeyStore, seed_of, load_from, load, check_stored, after_write, save, saved,
  load_or_generate,
}

module _ {S : Type 0} (store : SecretStore S) where
  -- What is stored under the account, behind the attestation.
  abbrev Holds : IdentityKeyStore S → Bytes → Type 0
  Holds st seed =
      (store.ensure_persistent st.secrets ≡ ok tt)
      × (store.get_secret st.secrets st.account ≡ ok (some seed))

  check_stored_ok :
      (seed : Bytes) (o : Option Bytes) → check_stored store seed o ≡ ok tt → o ≡ some seed
  unfolding check_stored
  check_stored_ok seed none h = ground arith
  check_stored_ok seed (some stored) h =
      elim (Bool-cases (length stored == length seed && bytes_eq stored seed)) [
        | inr e ↦
            let w : check_stored store seed (some stored)
                ≡ err (storage "credential store did not return the saved identity") =
              rw (e, check_stored) refl in
            ground (arith, w, h)
        | inl e ↦ ap some (bytes_eq→eq stored seed (ground arith))
      ]

  load-Holds :
      (st : IdentityKeyStore S) (k : IdentityKeypair)
      → length k.secret ≡ 32
      → Holds st k.secret
      → load store st ≡ ok (some k)
  unfolding load load_from seed_of
  load-Holds st k n (p, q) = rw (p, q, load) (rw (n, load_from, seed_of) refl)

  after_write_ok :
      (account : String) (seed : Bytes) (w : S × Result (Unit {0}))
      → after_write store account seed w ≡ ok tt
      → store.get_secret w.0 account ≡ ok (some seed)
  unfolding after_write
  after_write_ok account seed (secrets, err e) h = ground arith
  after_write_ok account seed (secrets, ok _) h =
      elim (Result-cases (store.get_secret secrets account)) [
        | inl (o, p) ↦ p ∙ ap ok (check_stored_ok seed o (kept o p))
        | inr (e, p) ↦ absurd (failed e p)
      ]
    where
      rest : Result (Option Bytes) → Result (Unit {0})
      rest r = r >>= check_stored store seed

      kept :
          (o : Option Bytes)
          → store.get_secret secrets account ≡ ok o
          → check_stored store seed o ≡ ok tt
      kept o p = sym (ap rest p) ∙ h

      failed : (e : Error) → store.get_secret secrets account ≡ err e → ⊥
      failed e p = ground (arith, sym (ap rest p) ∙ h)

  -- After a write that is reported as done, the store holds the seed.
  abbrev Saved : Bytes → IdentityKeyStore S × Result (Unit {0}) → Type 0
  Saved seed (st, ok _) = Holds st seed
  Saved seed (st, err e) = Unit {0}

  module _
      (attests : (s : S) (account : String) (v : Bytes)
        → store.ensure_persistent s ≡ ok tt
        → store.ensure_persistent (store.set_secret s account v).0 ≡ ok tt) where
    written-Saved :
        (st : IdentityKeyStore S) (seed : Bytes)
        → store.ensure_persistent st.secrets ≡ ok tt
        → (r : Result (Unit {0}))
        → after_write store st.account seed (store.set_secret st.secrets st.account seed) ≡ r
        → Saved seed (record st { secrets = (store.set_secret st.secrets st.account seed).0 }, r)
    written-Saved st seed p (ok _) h =
        (attests st.secrets st.account seed p, after_write_ok st.account seed _ h)
    written-Saved st seed p (err e) h = tt

    save-Saved : (k : IdentityKeypair) (st : IdentityKeyStore S) → Saved k.secret (save store k st)
    unfolding save
    save-Saved k st = elim (Result-cases (store.ensure_persistent st.secrets)) [
      | inl (_, p) ↦ rw (p, save) (written-Saved st k.secret p _ refl)
      | inr (e, p) ↦ rw (p, save) tt
    ]

    -- The identity that is given is the one that is kept.
    abbrev Given : IdentityKeyStore S × Result IdentityKeypair → Type 0
    Given (st, ok k) = load store st ≡ ok (some k)
    Given (st, err e) = Unit {0}

    saved-Given :
        (k : IdentityKeypair) (y : IdentityKeyStore S × Result (Unit {0}))
        → length k.secret ≡ 32
        → Saved k.secret y
        → Given (saved store k y)
    unfolding saved
    saved-Given k (st, ok _) n h = load-Holds st k n h
    saved-Given k (st, err e) n h = tt

    load_or_generate-Given :
        (k : IdentityKeypair) (st : IdentityKeyStore S)
        → length k.secret ≡ 32
        → Given (load_or_generate store k st)
    unfolding load_or_generate
    load_or_generate-Given k st n = elim (Result-cases (load store st)) [
      | inr (e, p) ↦ rw (p, load_or_generate) tt
      | inl (o, p) ↦ elim (Option-cases o) [
        | inl z ↦
            rw (p ∙ ap ok z, load_or_generate) (saved-Given k (save store k st) n (save-Saved k st))
        | inr (found, z) ↦ rw (p ∙ ap ok z, load_or_generate) (p ∙ ap ok z)
      ]
    ]

    -- If the attestation of a store outlives writes, the identity that load_or_generate gives,
    -- drawn with 32 bytes, is the one that a later load finds.
    pub load-load_or_generate :
        (generated k : IdentityKeypair) (st st' : IdentityKeyStore S)
        → length generated.secret ≡ 32
        → load_or_generate store generated st ≡ (st', ok k)
        → load store st' ≡ ok (some k)
    load-load_or_generate generated k st st' n h =
        subst Given h (load_or_generate-Given generated st n)

  -- The account has no entry.
  abbrev pub IsEmpty : IdentityKeyStore S → Type 0
  IsEmpty st =
      (store.ensure_persistent st.secrets ≡ ok tt)
      × (store.get_secret st.secrets st.account ≡ ok none)

  -- An identity that is given has the stored seed, of 32 bytes.
  abbrev pub FromStore : IdentityKeyStore S → Result IdentityKeypair → Type 0
  FromStore st (ok k) =
      (length k.secret ≡ 32) × (store.get_secret st.secrets st.account ≡ ok (some k.secret))
  FromStore st (err e) = Unit {0}

  -- What `load_or_generate` did without a write.
  abbrev Unwritten : IdentityKeyStore S → IdentityKeyStore S × Result IdentityKeypair → Type 0
  Unwritten st x = (x.0 ≡ st) × FromStore st x.1

  stored-Unwritten :
      (generated : IdentityKeypair) (st : IdentityKeyStore S) (seed : Bytes)
      → store.ensure_persistent st.secrets ≡ ok tt
      → store.get_secret st.secrets st.account ≡ ok (some seed)
      → Unwritten st (load_or_generate store generated st)
  unfolding load_or_generate load load_from seed_of
  stored-Unwritten generated st seed p q = elim (Bool-cases (length seed == 32)) [
    | inl n ↦ rw (p, q, n, load_or_generate) (refl, (ground arith, q))
    | inr n ↦ rw (p, q, n, load_or_generate) (refl, tt)
  ]

  -- Unless the store attests that it is persistent and has no entry for the account,
  -- load_or_generate does not write it, and gives an error or the identity of the stored seed, of
  -- 32 bytes: an entry that is there, even a malformed one, is never replaced.
  pub load_or_generate_kept :
      (generated : IdentityKeypair) (st : IdentityKeyStore S)
      → ¬ IsEmpty st
      → let x = load_or_generate store generated st in (x.0 ≡ st) × FromStore st x.1
  unfolding load_or_generate load
  load_or_generate_kept generated st h = elim (Result-cases (store.ensure_persistent st.secrets)) [
    | inr (e, p) ↦ rw (p, load_or_generate) (refl, tt)
    | inl (_, p) ↦ elim (Result-cases (store.get_secret st.secrets st.account)) [
      | inr (e, q) ↦ rw (p, q, load_or_generate) (refl, tt)
      | inl (o, q) ↦ elim (Option-cases o) [
        | inl z ↦ absurd (h (p, q ∙ ap ok z))
        | inr (seed, z) ↦ stored-Unwritten generated st seed p (q ∙ ap ok z)
      ]
    ]
  ]
