-- ===== src/Session/Vault.antt =====
-- CryptoService (frontend/src/app/core/crypto/crypto.service.ts): the vault key in RAM. A request's
-- outcome is an argument; a request that the service sends is part of its result.
pub mod Laws
use text.Mathlib.Text.{◌==◌ as str_eq}
use save_box.Prelude.{
  ℕ, ◌≡◌, Bool, true, false, Option, some, none, List, [], ◌∷◌, String, Result, ok, throw, or_throw,
  ◌>>=◌, ◌>>◌, length, if◌then◌else◌,
}
use save_box.Prelude.Words.{Bytes}
use save_box.Crypto.Platform.{key_size, Platform}
use save_box.Crypto.Kasumi
use save_box.Crypto.Kasumi.{encrypt_name, decrypt_name}
use save_box.Session.App.{UserInfo}

pub record Vault : Type 0 where
  pub vault_key : Option Bytes
  -- the signal `_isUnlocked`
  pub unlocked : Bool

abbrev pub initial : Vault
initial = record { vault_key = none; unlocked = false }

-- Argon2id in its worker, the browser's base64, and `trim().toLowerCase()`.
pub record Browser : Type 0 where
  pub derive_vault_key : String → String → Option Bytes
  pub btoa : Bytes → String
  pub atob : String → Option Bytes
  pub trim_lower : String → String

pub data Error : Type 0 where
  no_email derivation_failed not_initialized wrong_passphrase locked fetch_failed : Error
  -- a failed request, with its status
  request_failed : ℕ → Error
  kasumi : Kasumi.Error → Error

-- What `changeSecurityPhrase` posts, and the vault key that the recovery kit shows.
pub record Changed : Type 0 where
  pub token : String
  pub recovery_key : String

abbrev lift : {A : Type 0} → Result Kasumi.Error A → Result Error A
lift (ok a) = ok a
lift (throw e) = throw (kasumi e)

-- An error of `decryptName` or of `atob`, reported as a wrong passphrase.
abbrev or_wrong : {A : Type 0} → Result Kasumi.Error A → Result Error A
or_wrong (ok a) = ok a
or_wrong (throw e) = throw wrong_passphrase

-- null, undefined and the empty string are all rejected.
abbrev pub present : Error → Option String → Result Error String
present e none = throw e
present e (some s) = if str_eq s "" then throw e else ok s

-- The outcome of GET /api/vault/verification: a failed request, or the field of the response.
abbrev pub Fetched : Type 0
Fetched = Result ℕ (Option String)

abbrev fetched : Fetched → Result Error (Option String)
fetched (ok field) = ok field
fetched (throw status) = throw (request_failed status)

abbrev needed : Fetched → Result Error (Option String)
needed (ok field) = ok field
needed (throw status) = throw fetch_failed

module _ (p : Platform) (b : Browser) where
  open b use {derive_vault_key, btoa, atob, trim_lower}

  unfoldable pub master_key : Option UserInfo → String → Result Error Bytes
  master_key none passphrase = throw no_email
  master_key (some user) passphrase = do
    email ← present no_email user.email
    or_throw derivation_failed (derive_vault_key passphrase (trim_lower email))

  unfoldable pub opened_key : Option UserInfo → String → Fetched → Result Error Bytes
  opened_key user passphrase reply = do
    key ← master_key user passphrase
    field ← fetched reply
    verification ← present not_initialized field
    decrypted ← or_wrong (decrypt_name p verification key)
    or_throw wrong_passphrase (atob decrypted)

  unfoldable pub unlock_vault :
      Vault → Option UserInfo → String → Fetched → Vault × Result Error (Unit {0})
  unlock_vault v user passphrase reply = elim (opened_key user passphrase reply) [
    | ok key ↦ (record { vault_key = some key; unlocked = true }, ok tt)
    | throw e ↦ (v, throw e)
  ]

  -- The token that is posted, given a random vault key and a random nonce.
  unfoldable pub vault_verification : Bytes → Bytes → Bytes → Result Error String
  vault_verification vault_key master nonce = lift (encrypt_name p (btoa vault_key) master nonce)

  -- The vault, the token that was posted if it came to that, and the outcome. `failure` says how
  -- the server answers a post: by a failure's status, or not. No other handler runs while it waits; the parts
  -- between its waits are those of Session/Pages.
  unfoldable pub initialize_vault :
      Vault
      → Option UserInfo
      → String
      → Bytes
      → Bytes
      → (String → Option ℕ)
      → Vault × Option String × Result Error (Unit {0})
  initialize_vault v user passphrase fresh_key nonce failure = elim (master_key user passphrase) [
    | throw e ↦ (v, none, throw e)
    | ok master ↦ elim (vault_verification fresh_key master nonce) [
      | throw e ↦ (record v { vault_key = some fresh_key }, none, throw e)
      | ok token ↦ elim (failure token) [
        | some status ↦
            (record v { vault_key = some fresh_key }, some token, throw (request_failed status))
        | none ↦ (record { vault_key = some fresh_key; unlocked = true }, some token, ok tt)
      ]
    ]
  ]

  unfoldable pub prepared_change :
      Vault → Option UserInfo → String → String → Fetched → Bytes → Result Error Changed
  unfolding master_key vault_verification
  prepared_change v user old_phrase new_phrase reply nonce = do
    vault_key ← or_throw locked v.vault_key
    old_master ← master_key user old_phrase
    field ← needed reply
    verification ← present not_initialized field
    or_wrong (decrypt_name p verification old_master)
    new_master ← master_key user new_phrase
    token ← vault_verification vault_key new_master nonce
    ok (record { token = token; recovery_key = btoa vault_key })

  -- The recovery kit is downloaded only if the server accepts the post.
  unfoldable pub change_security_phrase :
      Vault
      → Option UserInfo
      → String
      → String
      → Fetched
      → Bytes
      → (String → Option ℕ)
      → Option String × Result Error String
  unfolding prepared_change
  change_security_phrase v user old_phrase new_phrase reply nonce failure =
      elim (prepared_change v user old_phrase new_phrase reply nonce) [
        | throw e ↦ (none, throw e)
        | ok c ↦ elim (failure c.token) [
          | some status ↦ (some c.token, throw (request_failed status))
          | none ↦ (some c.token, ok c.recovery_key)
        ]
      ]

unfoldable pub lock_vault : Vault → Vault
lock_vault v = record { vault_key = none; unlocked = false }

module _ (p : Platform) where
  -- A name that cannot be opened is shown as "[Erro] Nome ilegivel".
  unfoldable pub shown_name : Vault → String → String
  shown_name v ciphertext = elim v.vault_key [
    | none ↦ ciphertext
    | some key ↦ elim (decrypt_name p ciphertext key) [
      | ok name ↦ name
      | throw _ ↦ "[Erro] Nome ilegivel"
    ]
  ]

  unfoldable pub encrypted_name : Vault → String → Bytes → Result Error String
  encrypted_name v plaintext nonce = elim v.vault_key [
    | none ↦ throw locked
    | some key ↦ lift (encrypt_name p plaintext key nonce)
  ]
