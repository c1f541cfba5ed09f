-- ===== src/Session/Tests.antt =====
-- The session at concrete inputs, over the toy platform.
use mathlib.Core.Option.{some-injective}
use save_box.Prelude.{
  ap, ℕ, ◌≡◌, refl, true, false, inr, Option, some, none, [], ◌∷◌, ◌++◌, ok, throw, length,
  replicate, String, Result,
}
use save_box.Prelude.Words.{Bytes}
use save_box.Crypto.Platform.{key_size}
use save_box.Crypto.Toy.{toy, toy-IsSound, decode-to_base64}
use save_box.Crypto.Kasumi.{encrypt_name, decrypt_name}
use save_box.Session.App.{UserInfo, unauthenticated, unlocked}
use save_box.Session.Token.{Text, Decoders, bool}
use save_box.Session.Vault
use save_box.Session.Vault.{
  Vault, Browser, unlock_vault, initialize_vault, master_key, opened_key, change_security_phrase,
  shown_name, encrypted_name,
}
use save_box.Session.Vault.Laws.{
  IsFaithful, unlock_vault-initialize_vault, unlock_vault-change_security_phrase,
  shown_name-encrypted_name,
}
use save_box.Session.State.{Session, initial, logout}
use save_box.Session.Interceptors.{Outgoing, Failed}
use save_box.Session.Auth.{HttpError}
use save_box.Session.Pages.{begin_unlock, finish_unlock, begin_setup, answer_setup, lock_drive}
use save_box.Session.Reach.{
  IsConsistent, here, next, unlock, lock, leave, setup, setup_stored, Reach-IsConsistent,
}

-- A byte of the key that a phrase stands for.
phrase_byte : String → ℕ
unfolding toy
phrase_byte phrase = length (toy.encode phrase)

abbrev browser : Browser
browser = record {
  derive_vault_key = λ phrase salt. some (replicate 32 (phrase_byte phrase));
  btoa = toy.to_base64;
  atob = toy.from_base64;
  trim_lower = λ s. s;
}

derived :
    (phrase salt : String) (k : Bytes)
    → browser.derive_vault_key phrase salt ≡ some k
    → length k ≡ key_size
unfolding toy phrase_byte
derived phrase salt k h = cc (ap length (some-injective (replicate 32 (phrase_byte phrase)) k h))

browser-IsFaithful : IsFaithful toy browser
unfolding toy phrase_byte
browser-IsFaithful = record {
  length-derived = derived;
  atob-btoa = toy-IsSound.from-to;
  decode-btoa = decode-to_base64;
}

abbrev ana : UserInfo
ana = record { email = some "a@b"; name = "Ana"; picture = "" }

abbrev decoders : Decoders
decoders = record {
  parse_utf8 = λ s. some (record {
    email = some "a@b";
    name = some "Ana";
    picture = none;
    is_vault_initialized = bool true;
  });
  parse = λ s. some (record {
    email = some "a@b";
    name = some "Ana";
    picture = none;
    is_vault_initialized = bool true;
  });
}

-- "h.-_x.s"
abbrev token : Text
token = b'h' ∷ b'.' ∷ b'-' ∷ b'_' ∷ b'x' ∷ b'.' ∷ b's' ∷ []

abbrev nonce : Bytes
nonce = replicate 24 0

abbrev vault_key : Bytes
vault_key = 0 ∷ []

abbrev open_vault : Vault
open_vault = record { vault_key = some vault_key; unlocked = true }

abbrev refused : HttpError
refused = record { status = 403; message = none }

program : Unit {0}
unfolding toy phrase_byte master_key opened_key unlock_vault encrypt_name decrypt_name
    change_security_phrase encrypted_name shown_name
program = tt

-- What the server stores under the empty phrase.
abbrev stored : String
stored = toy.to_base64 (nonce ++ (replicate 16 98 ++ (98 ∷ [])))

stored_opens : opened_key toy browser (some ana) "" (ok (some stored)) ≡ ok vault_key
unfolding program
stored_opens = refl

wrong_phrase :
    opened_key toy browser (some ana) "abc" (ok (some stored)) ≡ throw Vault.wrong_passphrase
unfolding program
wrong_phrase = refl

unlock_vault-initialize_vault_example :
    (token : String) × ((initialize_vault toy browser Vault.initial
        (some ana)
        ""
        vault_key
        nonce
        (λ _. some 500)).1
      ≡ some token)
    × ((initialize_vault toy browser Vault.initial
          (some ana)
          ""
          vault_key
          nonce
          (λ _. some 500)).0.vault_key
        ≡ some vault_key)
    × (unlock_vault toy browser Vault.initial (some ana) "" (ok (some token)) ≡ (open_vault, ok tt))
unfolding program
unlock_vault-initialize_vault_example =
    unlock_vault-initialize_vault toy browser toy-IsSound browser-IsFaithful Vault.initial
      Vault.initial (some ana) "" (replicate 32 0) vault_key nonce (λ _. some 500) refl refl

-- Eight bytes more in every byte of the key: the checksum is the same.
abbrev new_phrase : String
new_phrase = "aaaaaaaa"

unlock_vault-change_security_phrase_example :
    (name : String) × (verification : String) × (◌≡◌ {A = Result ℕ (Option String)}
      (ok (some stored))
      (ok (some verification)))
    × (decrypt_name toy verification (replicate 32 0) ≡ ok name)
    × (unlock_vault toy browser Vault.initial (some ana) new_phrase (ok (some stored))
        ≡ (open_vault, ok tt))
unfolding program
unlock_vault-change_security_phrase_example =
    unlock_vault-change_security_phrase toy browser toy-IsSound browser-IsFaithful open_vault
      Vault.initial (some ana) "" new_phrase stored (ok (some stored)) (replicate 32 0)
      (replicate 32 8) vault_key nonce (λ _. none) refl refl refl refl refl

shown_name-encrypted_name_example :
    (text : String) × (encrypted_name toy
        (record open_vault { vault_key = some (replicate 32 1) })
        "ab"
        nonce
      ≡ ok text)
    × (shown_name toy (record open_vault { vault_key = some (replicate 32 1) }) text ≡ "ab")
unfolding toy
shown_name-encrypted_name_example =
    shown_name-encrypted_name toy toy-IsSound
      (record open_vault { vault_key = some (replicate 32 1) }) "ab" (replicate 32 1) nonce refl
      refl refl refl

-- A session whose vault is open.
abbrev signed_in : Session
signed_in = record initial {
  app = record { status = unlocked; user = some ana };
  vault = open_vault;
  jwt = some token;
}

abbrev signed_out : Session
signed_out = record initial { app = record { status = unauthenticated; user = none } }

signed_in-IsConsistent : IsConsistent signed_in
signed_in-IsConsistent = record { keyed = inr (λ e. cc); tokened = inr (λ e. cc) }

abbrev failed_request : Failed
failed_request = record { status = 403; public_share = false; bypass = false }

abbrev plain_request : Outgoing
plain_request = record { to_google_apis = false; authorization = none; with_credentials = false }

abbrev begun : Session
begun =
    begin_setup toy browser
      (finish_unlock toy browser (logout (lock_drive signed_in)) (begin_unlock signed_in "")
        (ok (some stored)))
      (begin_unlock signed_in "") (replicate 32 3)

begun-key : begun.vault.vault_key ≡ some (replicate 32 3)
unfolding begin_setup begin_unlock program
begun-key = refl

Reach-IsConsistent_example : IsConsistent (answer_setup begun (ok tt))
Reach-IsConsistent_example =
    Reach-IsConsistent toy browser decoders signed_in-IsConsistent
      (next
        (next
          (next (next (next here lock) leave)
            (unlock (begin_unlock signed_in "") (ok (some stored))))
          (setup (begin_unlock signed_in "") (replicate 32 3)))
        setup_stored)
      (((((tt, tt), tt), tt), tt), λ e. cc (begun-key, e))

-- A logout while the setup waits for its post leaves an unlocked vault without a key.
setup_after_logout :
    (answer_setup (logout begun) (ok tt)).vault ≡ record { vault_key = none; unlocked = true }
unfolding answer_setup logout program
setup_after_logout = refl
