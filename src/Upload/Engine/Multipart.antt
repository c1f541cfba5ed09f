-- ===== src/Upload/Engine/Multipart.antt =====
-- The multipart body that uploadGoogleDrive copies into one buffer.
use save_box.Prelude.{
  zero, suc, ℕ, ◌+◌, ◌≡◌, refl, sym, ap, ◌∙◌, some, List, [], ◌∷◌, ◌++◌, arith, append_assoc,
  flatten, length, length-append, length-replicate,
}
use save_box.Prelude.Words.{Bytes, zeros, write_middle}
use save_box.Upload.Engine.{fill, total_size, multipart}

zeros-add : (m n : ℕ) → zeros (m + n) ≡ zeros m ++ zeros n
zeros-add zero n = ap zeros (omega arith)
zeros-add (suc m) n =
    let more : suc m + n ≡ suc (m + n) = omega arith in
    ap zeros more ∙ ap (λ (b : Bytes). 0 ∷ b) (zeros-add m n)

fill-rest :
    (chunks : List Bytes) (done : Bytes)
    → fill (done ++ zeros (total_size chunks)) (length done) chunks ≡ some (done ++ flatten chunks)
unfolding fill total_size flatten
fill-rest [] done = refl
fill-rest (chunk ∷ chunks) done =
    let buffer : done ++ zeros (length chunk + total_size chunks)
        ≡ done ++ (zeros (length chunk) ++ zeros (total_size chunks)) =
      ap (λ (b : Bytes). done ++ b) (zeros-add (length chunk) (total_size chunks)) in
    let written =
      write_middle done (zeros (length chunk)) (zeros (total_size chunks)) chunk (length done) refl
        (sym (length-replicate (length chunk) 0)) in
    rw
      (
        buffer,
        fill,
        written,
        ← append_assoc done chunk (zeros (total_size chunks)),
        ← length-append done chunk,
      )
      (fill-rest chunks (done ++ chunk) ∙ ap some (append_assoc done chunk (flatten chunks)))

-- The buffer holds all the parts, one after the other, and no copy is out of range.
pub multipart-flatten : (chunks : List Bytes) → multipart chunks ≡ some (flatten chunks)
unfolding multipart
multipart-flatten chunks = fill-rest chunks []
