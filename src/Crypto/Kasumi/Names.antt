-- ===== src/Crypto/Kasumi/Names.antt =====
-- Encrypted names.
use save_box.Prelude.{
  ℕ, zero, suc, ◌+◌, ◌≤◌, ◌≡◌, ◌≢◌, refl, sym, ap, ◌∙◌, some, [], ◌∷◌, ◌++◌, append_assoc,
  append-nil, ok, arith, length, drop, length-append, String, le→ltb, drop-append, length-replicate,
}
use save_box.Prelude.Words.{Bytes, zeros, write_middle, write_third, slice_middle}
use save_box.Crypto.Platform.{nonce_size, mac_size, key_size, Sealed, Platform, IsSound}
use save_box.Crypto.Kasumi.{encrypt_name, decrypt_name}

zeros-split : (a b : ℕ) → zeros (a + b) ≡ zeros a ++ zeros b
zeros-split zero b = ap zeros (omega arith)
zeros-split (suc a) b = ap zeros suc_plus ∙ ap (◌∷◌ 0) (zeros-split a b)
  where
    suc_plus : suc a + b ≡ suc (a + b)
    suc_plus = omega arith

module _ (p : Platform) (sound : IsSound p) (key nonce : Bytes) (keyed : length key ≡ key_size)
    (sized : length nonce ≡ nonce_size) where
  pub encrypt_name_lem :
      (name : String) (s : Sealed)
      → p.encrypt_detached (p.encode name) nonce key ≡ some s
      → encrypt_name p name key nonce ≡ ok (p.to_base64 (nonce ++ (s.mac ++ s.ciphertext)))
  unfolding encrypt_name
  encrypt_name_lem name s sealed =
      let n = length s.ciphertext in
      let buffer : zeros (nonce_size + mac_size + n) ≡ [] ++ (zeros 24 ++ (zeros 16 ++ zeros n)) =
        zeros-split 40 n in
      let first = write_middle [] (zeros 24) (zeros 16 ++ zeros n) nonce 0 refl sized in
      let second =
        write_middle nonce (zeros 16) (zeros n) s.mac 24 sized (sound.length-mac sealed) in
      let third =
        rw (append-nil (zeros n), append-nil s.ciphertext) at
          (write_third nonce s.mac (zeros n) [] s.ciphertext 40
            (omega (arith, sized, sound.length-mac sealed)) (sym (length-replicate n 0))) in
      rw (keyed, sealed, buffer, first, second, third) refl

  -- With a key and a nonce of the right sizes, encryptName makes a text for every name, and decryptName
  -- returns from it what TextDecoder makes of the bytes of the name.
  pub decrypt_name-encrypt_name :
      (name : String)
      → (text : String) × (encrypt_name p name key nonce ≡ ok text)
        × (decrypt_name p text key ≡ ok (p.decode (p.encode name)))
  unfolding decrypt_name
  decrypt_name-encrypt_name name =
      let (s, sealed) = sound.seals (p.encode name) nonce key sized keyed in
      let bytes : Bytes = nonce ++ (s.mac ++ s.ciphertext) in
      let mac = sound.length-mac sealed in
      let long : 40 ≤ length bytes = omega (
        arith,
        sized,
        mac,
        length-append nonce (s.mac ++ s.ciphertext),
        length-append s.mac s.ciphertext,
      ) in
      let front = slice_middle [] nonce (s.mac ++ s.ciphertext) 0 24 refl (omega (arith, sized)) in
      let middle = slice_middle nonce s.mac s.ciphertext 24 40 sized (omega (arith, mac)) in
      let back : drop 40 bytes ≡ s.ciphertext = rw (← append_assoc nonce s.mac s.ciphertext) (
        drop-append 40 (nonce ++ s.mac) s.ciphertext
          (omega (arith, sized, mac, length-append nonce s.mac))) in
      (
        p.to_base64 bytes,
        encrypt_name_lem name s sealed,
        rw (keyed, sound.from-to bytes, le→ltb _ _ long, back, middle, front, sound.opens sealed)
            refl,
      )

-- The empty text is no encrypted name.
pub decrypt_name-empty :
    (p : Platform) (sound : IsSound p) (key : Bytes) (name : String)
    → decrypt_name p "" key ≢ ok name
unfolding decrypt_name
decrypt_name-empty p sound key name h = ground (arith, sound.from-empty)
