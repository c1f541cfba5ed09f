-- ===== src/Video/Fetch/Retries.antt =====
-- How often a range is requested.
use save_box.Prelude.{
  ℕ, zero, suc, ◌+◌, ◌≤◌, ◌<◌, ◌≡◌, refl, sym, ap, ◌∙◌, false, List, [], ◌∷◌, ok, throw, arith,
}
use mathlib.Core.Path.{ap₂}
use save_box.Prelude.Words.{Bytes}
use save_box.Video.Fetch.{
  Answer, blob, fetch_error, request_error, fetched, fetch_from, fetch_range, retried, backoff,
}

-- The waits before the request with number `from + count`.
abbrev pub backoffs : ℕ → ℕ → List ℕ
backoffs from zero = []
backoffs from (suc count) = backoff from ∷ backoffs (from + 1) count

module _ (answers : ℕ → Answer) (statuses : ℕ → ℕ) where
  answered :
      (retries number : ℕ) (bytes : Bytes)
      → answers number ≡ blob bytes
      → fetch_from answers (λ j. false) retries number
        ≡ record { outcome = ok bytes; requests = 1; waits = [] }
  unfolding fetch_from fetched
  answered zero number bytes good = rw (good, fetch_from) refl
  answered (suc retries) number bytes good = rw (good, fetch_from) refl

  tried_again :
      (retries number : ℕ)
      → answers number ≡ fetch_error false (statuses number)
      → fetch_from answers (λ j. false) (suc retries) number
        ≡ retried (backoff number) (fetch_from answers (λ j. false) retries (number + 1))
  unfolding fetch_from
  tried_again retries number bad = rw (bad, fetch_from) refl

  -- `count` requests fail, and the next one does not.
  fetch_from-blob :
      (retries count number : ℕ) (bytes : Bytes)
      → count ≤ retries
      → ((j : ℕ) → j < number + count → answers j ≡ fetch_error false (statuses j))
      → answers (number + count) ≡ blob bytes
      → fetch_from answers (λ j. false) retries number
        ≡ record { outcome = ok bytes; requests = count + 1; waits = backoffs number count }
  fetch_from-blob retries zero number bytes h fail good =
      let here : number + 0 ≡ number = omega arith in
      answered retries number bytes (rw here at good)
  fetch_from-blob zero (suc count) number bytes h fail good = absurd (omega arith)
  fetch_from-blob (suc retries) (suc count) number bytes h fail good =
      let there : number + suc count ≡ number + 1 + count = omega arith in
      let ih =
        fetch_from-blob retries count (number + 1) bytes (omega arith)
          (λ j less. fail j (omega arith)) (rw there at good) in
      let step : count + 1 + 1 ≡ suc count + 1 = omega arith in
      tried_again retries number (fail number (omega arith))
      ∙ (ap (retried (backoff number)) ih
          ∙ ap
              (λ (n : ℕ). record {
                outcome = ok bytes;
                requests = n;
                waits = backoffs number (suc count);
              })
              step)

  fetch_from-fails :
      (retries number : ℕ)
      → ((j : ℕ) → j < number + retries + 1 → answers j ≡ fetch_error false (statuses j))
      → fetch_from answers (λ j. false) retries number ≡ record {
        outcome = throw (request_error (statuses (number + retries)));
        requests = retries + 1;
        waits = backoffs number retries;
      }
  unfolding fetch_from
  fetch_from-fails zero number fail =
      let here : number + 0 ≡ number = omega arith in
      rw (here, fail number (omega arith), fetch_from) refl
  fetch_from-fails (suc retries) number fail =
      let there : number + suc retries ≡ number + 1 + retries = omega arith in
      let ih = fetch_from-fails retries (number + 1) (λ j less. fail j (omega arith)) in
      tried_again retries number (fail number (omega arith))
      ∙ (ap (retried (backoff number)) ih
          ∙ ap₂
              (λ (n k : ℕ). record {
                outcome = throw (request_error (statuses k));
                requests = n;
                waits = backoffs number (suc retries);
              })
              (omega arith) (sym there))

-- If the first requests for a range fail, at most three of them, and the next one is answered, nothing
-- being aborted, the range is fetched by that request, after waits of 1, 2 and 4 seconds for the ones
-- before it.
pub fetch_range-blob :
    (answers : ℕ → Answer) (statuses : ℕ → ℕ) (count : ℕ) (bytes : Bytes)
    → count ≤ 3
    → ((j : ℕ) → j < count → answers j ≡ fetch_error false (statuses j))
    → answers count ≡ blob bytes
    → fetch_range answers (λ j. false) false
      ≡ record { outcome = ok bytes; requests = count + 1; waits = backoffs 0 count }
unfolding fetch_range
fetch_range-blob answers statuses count bytes few fail good =
    let there : 0 + count ≡ count = omega arith in
    fetch_from-blob answers statuses 3 count 0 bytes few (λ j less. fail j (omega arith))
      (rw there good)

-- If the four requests for a range fail, nothing being aborted, the error is the last one's, after waits
-- of 1, 2 and 4 seconds.
pub fetch_range-fails :
    (answers : ℕ → Answer) (statuses : ℕ → ℕ)
    → ((j : ℕ) → j < 4 → answers j ≡ fetch_error false (statuses j))
    → fetch_range answers (λ j. false) false ≡ record {
      outcome = throw (request_error (statuses 3));
      requests = 4;
      waits = 1000 ∷ 2000 ∷ 4000 ∷ [];
    }
unfolding fetch_range
fetch_range-fails answers statuses fail =
    fetch_from-fails answers statuses 3 0 (λ j less. fail j (omega arith))
