-- ===== src/Session/Vault/Laws.antt =====
-- The vault key survives the server, and a change of the security phrase.
use text.Mathlib.Text.{◌==◌ as str_eq}
use text.Mathlib.TextEquality.{eq_iff}
use save_box.Prelude.{
  ℕ, ◌≡◌, ◌≢◌, refl, true, false, inl, inr, Option, some, none, String, ok, throw, or_throw,
  >>=-eq-ok, or_throw-eq-ok, length, Bool-cases, arith, Result-cases,
}
use save_box.Prelude.Words.{Bytes}
use save_box.Crypto.Platform.{key_size, nonce_size, Platform, IsSound}
use save_box.Crypto.Kasumi.{decrypt_name}
use save_box.Crypto.Kasumi.Names.{decrypt_name-encrypt_name, decrypt_name-empty}
use save_box.Session.App.{UserInfo}
use save_box.Session.Vault.{
  Vault, Browser, derivation_failed, no_email, present, Fetched, master_key, opened_key,
  unlock_vault, vault_verification, initialize_vault, change_security_phrase, shown_name,
  encrypted_name,
}

-- The documented behaviour of the browser and of Argon2id.
pub record IsFaithful (p : Platform) (b : Browser) : Type 0 where
  pub length-derived :
      (phrase salt : String) (k : Bytes)
      → b.derive_vault_key phrase salt ≡ some k
      → length k ≡ key_size
  pub atob-btoa : (k : Bytes) → b.atob (b.btoa k) ≡ some k
  -- base64 is ASCII, which TextDecoder reads back
  pub decode-btoa : (k : Bytes) → p.decode (p.encode (b.btoa k)) ≡ b.btoa k

module _ (p : Platform) (b : Browser) (sound : IsSound p) (faithful : IsFaithful p b) where
  length-master_key :
      (user : Option UserInfo) (phrase : String) (k : Bytes)
      → master_key p b user phrase ≡ ok k
      → length k ≡ key_size
  unfolding master_key
  length-master_key none phrase k h = cc
  length-master_key (some user) phrase k h =
      let (email, given, derived) =
        >>=-eq-ok (present no_email user.email)
          (λ e. or_throw derivation_failed (b.derive_vault_key phrase (b.trim_lower e))) h in
      faithful.length-derived phrase (b.trim_lower email) k
        (or_throw-eq-ok derivation_failed (b.derive_vault_key phrase (b.trim_lower email)) derived)

  vault_verification-opens :
      (user : Option UserInfo) (phrase : String) (master vault_key nonce : Bytes)
      → length nonce ≡ nonce_size
      → master_key p b user phrase ≡ ok master
      → (token : String) × (vault_verification p b vault_key master nonce ≡ ok token)
        × (opened_key p b user phrase (ok (some token)) ≡ ok vault_key)
  unfolding vault_verification opened_key
  vault_verification-opens user phrase master vault_key nonce sized h =
      let (token, made, opens) =
        decrypt_name-encrypt_name p sound master nonce (length-master_key user phrase master h)
          sized (b.btoa vault_key) in
      let nonempty : token ≢ "" = λ e. decrypt_name-empty p sound master _ (rw e at opens) in
      let there : str_eq token "" ≡ false = not_equal token nonempty in
      (
        token,
        rw made,
        rw (h, there, opens, faithful.decode-btoa vault_key, faithful.atob-btoa vault_key) refl,
      )
    where
      not_equal : (t : String) → t ≢ "" → str_eq t "" ≡ false
      not_equal t h' = elim (Bool-cases (str_eq t "")) [
        | inl same ↦ absurd (h' ((eq_iff t "").0 same))
        | inr other ↦ other
      ]

  -- With a nonce of the right size and a master key from the phrase, the setup posts a token that
  -- every later session opens under the same phrase, to the key that the setup generated, even if the
  -- server then answers with a failure.
  pub unlock_vault-initialize_vault :
      (v w : Vault) (user : Option UserInfo) (phrase : String) (master fresh_key nonce : Bytes)
      (failure : String → Option ℕ)
      → length nonce ≡ nonce_size
      → master_key p b user phrase ≡ ok master
      → (token : String) × ((initialize_vault p b v user phrase fresh_key nonce failure).1
          ≡ some token)
        × ((initialize_vault p b v user phrase fresh_key nonce failure).0.vault_key
            ≡ some fresh_key)
        × (unlock_vault p b w user phrase (ok (some token))
            ≡ (record { vault_key = some fresh_key; unlocked = true }, ok tt))
  unfolding initialize_vault unlock_vault
  unlock_vault-initialize_vault v w user phrase master fresh_key nonce failure sized h =
      let (token, made, opens) =
        vault_verification-opens user phrase master fresh_key nonce sized h in
      (token, ground arith, ground arith, rw (opens, unlock_vault) refl)

  -- What is posted only after the old phrase has opened the token on the server.
  change_posted :
      (v : Vault) (user : Option UserInfo) (old_phrase new_phrase token made : String)
      (reply : Fetched) (old_master new_master vault_key nonce : Bytes)
      (failure : String → Option ℕ)
      → v.vault_key ≡ some vault_key
      → master_key p b user old_phrase ≡ ok old_master
      → master_key p b user new_phrase ≡ ok new_master
      → vault_verification p b vault_key new_master nonce ≡ ok made
      → (change_security_phrase p b v user old_phrase new_phrase reply nonce failure).0 ≡ some token
      → (name : String) × (verification : String) × (reply ≡ ok (some verification))
        × (decrypt_name p verification old_master ≡ ok name)
        × (token ≡ made)
  unfolding change_security_phrase
  change_posted v user old_phrase new_phrase token made (throw status) old_master new_master
        vault_key nonce failure held old_ok new_ok verified posted =
      ground arith
  change_posted v user old_phrase new_phrase token made (ok none) old_master new_master vault_key
        nonce failure held old_ok new_ok verified posted =
      ground arith
  change_posted v user old_phrase new_phrase token made (ok (some t)) old_master new_master
        vault_key nonce failure held old_ok new_ok verified posted =
      elim (Result-cases (decrypt_name p t old_master)) [
        | inl (name, opened) ↦ (name, t, refl, opened, ground arith)
        | inr (e, wrong) ↦ ground arith
      ]

  -- With a vault key in RAM, a nonce of the right size and a master key from either phrase, a change
  -- of phrase that posts a token has opened the server's token under the old phrase, and every later
  -- session opens the posted token under the new phrase, to the same vault key.
  pub unlock_vault-change_security_phrase :
      (v w : Vault) (user : Option UserInfo) (old_phrase new_phrase token : String)
      (reply : Fetched) (old_master new_master vault_key nonce : Bytes)
      (failure : String → Option ℕ)
      → length nonce ≡ nonce_size
      → v.vault_key ≡ some vault_key
      → master_key p b user old_phrase ≡ ok old_master
      → master_key p b user new_phrase ≡ ok new_master
      → (change_security_phrase p b v user old_phrase new_phrase reply nonce failure).0 ≡ some token
      → (name : String) × (verification : String) × (reply ≡ ok (some verification))
        × (decrypt_name p verification old_master ≡ ok name)
        × (unlock_vault p b w user new_phrase (ok (some token))
            ≡ (record { vault_key = some vault_key; unlocked = true }, ok tt))
  unfolding change_security_phrase unlock_vault
  unlock_vault-change_security_phrase v w user old_phrase new_phrase token reply old_master
        new_master vault_key nonce failure sized held old_ok new_ok posted =
      let (token', made, opens) =
        vault_verification-opens user new_phrase new_master vault_key nonce sized new_ok in
      let (name, verification, given, checked, same) =
        change_posted v user old_phrase new_phrase token token' reply old_master new_master
          vault_key nonce failure held old_ok new_ok made posted in
      (name, verification, given, checked, rw (same, opens, unlock_vault) refl)

module _ (p : Platform) (sound : IsSound p) where
  -- With a key and a nonce of the right sizes, a name that TextDecoder reads back is encrypted by the
  -- vault to a text that the same vault shows as the name.
  pub shown_name-encrypted_name :
      (v : Vault) (name : String) (key nonce : Bytes)
      → length nonce ≡ nonce_size
      → length key ≡ key_size
      → v.vault_key ≡ some key
      → p.decode (p.encode name) ≡ name
      → (text : String) × (encrypted_name p v name nonce ≡ ok text) × (shown_name p v text ≡ name)
  unfolding encrypted_name shown_name
  shown_name-encrypted_name v name key nonce sized keyed held readable =
      let (text, made, opens) = decrypt_name-encrypt_name p sound key nonce keyed sized name in
      (text, rw (held, encrypted_name, made) refl, rw (held, shown_name, opens) readable)
