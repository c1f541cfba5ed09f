-- ===== src/Crypto/Tests.antt =====
-- The encryption layer at concrete inputs, over the toy platform.
use save_box.Prelude.{
  ℕ, ◌+◌, ◌-◌, ◌*◌, ◌/◌, ◌≡◌, ◌≢◌, refl, true, false, some, none, [], ◌∷◌, ◌++◌, ok, throw, arith,
  length, flatten, replicate,
}
use save_box.Prelude.Words.{Bytes, slice}
use save_box.Crypto.Toy.{toy, toy-IsSound}
use save_box.Crypto.Nonce.{derive_chunk_nonce}
use save_box.Crypto.Nonce.Layout.{derive_chunk_nonce_injective}
use save_box.Crypto.Kasumi.{
  diverged, encrypt_file, decrypt_file, extract_metadata, encrypt_name, decrypt_name, has_metadata,
  chunk_size, key_must_be_32_bytes, truncated,
}
use save_box.Crypto.Kasumi.Guarantees.{
  decrypt-encrypt_with_metadata, decrypt-encrypt_without_metadata, extract_metadata-encrypt_file,
}
use save_box.Crypto.Kasumi.Sizes.{decrypt_file-ne-diverged, length-encrypt_file}
use save_box.Crypto.Worker

program : Unit {0}
unfolding toy encrypt_file decrypt_file extract_metadata has_metadata derive_chunk_nonce
    encrypt_name decrypt_name flatten
program = tt

abbrev base : Bytes
base = replicate 24 7

abbrev fdk : Bytes
fdk = replicate 32 9

abbrev file : Bytes
file = 1 ∷ 2 ∷ 3 ∷ []

abbrev sealed_plain : Bytes
sealed_plain = base ++ ((3 ∷ replicate 7 0) ++ (replicate 16 206 ++ file))

plain_layout : encrypt_file toy file fdk base none ≡ ok sealed_plain
unfolding program
plain_layout = refl

plain_opens : decrypt_file toy sealed_plain fdk ≡ ok file
unfolding program
plain_opens = refl

short_key : decrypt_file toy sealed_plain file ≡ throw key_must_be_32_bytes
unfolding program
short_key = refl

cut_short : decrypt_file toy (slice sealed_plain 0 40) fdk ≡ throw truncated
unfolding program
cut_short = refl

derive_chunk_nonce_injective_example : ◌≡◌ {A = ℕ} 513 513
derive_chunk_nonce_injective_example =
    derive_chunk_nonce_injective base 513 513 refl (omega arith) (omega arith) (omega arith) refl

decrypt-encrypt_with_metadata_example :
    (blob : Bytes) × (encrypt_file toy file fdk base (some "{}") ≡ ok blob)
    × (decrypt_file toy blob fdk ≡ ok file)
unfolding toy
decrypt-encrypt_with_metadata_example =
    decrypt-encrypt_with_metadata toy toy-IsSound file base fdk (some "{}") refl refl (omega arith)
      "{}" refl (omega arith)

decrypt-encrypt_without_metadata_example : decrypt_file toy sealed_plain fdk ≡ ok file
unfolding program
decrypt-encrypt_without_metadata_example =
    decrypt-encrypt_without_metadata toy toy-IsSound file base fdk none refl refl (omega arith)
      sealed_plain refl refl refl

abbrev sealed_name : Bytes
sealed_name =
    base
    ++ ((3 ∷ replicate 7 0)
        ++ ((75 ∷ 65 ∷ 83 ∷ 50 ∷ 2 ∷ 0 ∷ 0 ∷ 0 ∷ [])
            ++ ((replicate 16 79 ++ (97 ∷ 98 ∷ [])) ++ (replicate 16 206 ++ file))))

name_layout : encrypt_file toy file fdk base (some "ab") ≡ ok sealed_name
unfolding program
name_layout = refl

extract_metadata-encrypt_file_example :
    extract_metadata toy (slice sealed_name 0 60) fdk
    ≡ ok (record { metadata = some "ab"; data_start = 58; size = 3 })
unfolding program
extract_metadata-encrypt_file_example =
    extract_metadata-encrypt_file toy toy-IsSound file base fdk (some "ab") refl refl (omega arith)
      "ab" 60 sealed_name refl (omega arith) refl (omega arith) refl

decrypt_file-ne-diverged_example : decrypt_file toy sealed_plain fdk ≢ throw diverged
decrypt_file-ne-diverged_example = decrypt_file-ne-diverged toy sealed_plain fdk

length-encrypt_file_example :
    length sealed_plain ≡ 32 + (3 + 16 * ((3 + (chunk_size - 1)) / chunk_size))
unfolding program
length-encrypt_file_example =
    length-encrypt_file toy toy-IsSound file base fdk refl refl none sealed_plain (omega arith) refl

abbrev idle : Worker.State
idle = record { sodium_ready = false; logs_enabled = false }

worker_example :
    Worker.on_message toy idle (Worker.decrypt_chunk (replicate 16 206 ++ file) fdk base 0)
    ≡ (record idle { sodium_ready = true }, some (Worker.chunk_decrypted file 0))
unfolding program
worker_example =
    Worker.on_message-sealed toy idle file base fdk 0
      (record { ciphertext = file; mac = replicate 16 206 }) toy-IsSound refl
