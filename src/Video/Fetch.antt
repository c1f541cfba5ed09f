-- ===== src/Video/Fetch.antt =====
-- `fetchRange`: whose request it makes, and its retries. The answer to each request, and whether the
-- controller has been aborted by then, are arguments, by the number of the request.
pub mod Retries
use save_box.Prelude.{
  ℕ, zero, suc, ◌+◌, ◌*◌, ◌^◌, Bool, ◌&&◌, List, [], ◌∷◌, Result, ok, throw, if◌then◌else◌,
}
use save_box.Prelude.Words.{Bytes}

pub data Answer : Type 0 where
  blob : Bytes → Answer
  fetch_error : (is_abort : Bool) (status : ℕ) → Answer

-- `downloadSharedFileRange`, `downloadExternalFileRange` or `downloadFileRange`.
pub data RangeRequest : Type 0 where
  shared_range external_range own_range : RangeRequest

unfoldable pub range_request : Bool → Bool → Bool → RangeRequest
range_request has_share_uuid has_gdrive_url has_gdrive_token =
    if has_share_uuid
    then shared_range
    else if has_gdrive_url && has_gdrive_token
    then external_range
    else own_range

-- `aborted_fetch` is the rejection by `abortHandler`.
pub data FetchError : Type 0 where
  aborted_fetch : FetchError
  request_error : ℕ → FetchError

-- The outcome, with the number of requests and the waits between them.
pub record Fetched : Type 0 where
  pub outcome : Result FetchError Bytes
  pub requests : ℕ
  pub waits : List ℕ

abbrev pub max_retries : ℕ
max_retries = 3

-- `timer(Math.pow(2, retryCount - 1) * 1000)`, for the error of the request with this number.
abbrev pub backoff : ℕ → ℕ
backoff number = 2 ^ number * 1000

abbrev pub rejected : FetchError → Fetched
rejected error = record { outcome = throw error; requests = 1; waits = [] }

abbrev pub retried : ℕ → Fetched → Fetched
retried wait again = record {
  outcome = again.outcome;
  requests = again.requests + 1;
  waits = wait ∷ again.waits;
}

module _ (answers : ℕ → Answer) (is_aborted : ℕ → Bool) where
  unfoldable pub fetched : ℕ → Bytes → Fetched
  fetched number bytes =
      if is_aborted number
      then rejected aborted_fetch
      else record { outcome = ok bytes; requests = 1; waits = [] }

  -- `retry({ count: 3, delay })`, from the request with this number.
  unfoldable pub fetch_from : ℕ → ℕ → Fetched
  unfolding fetched
  fetch_from zero number = elim (answers number) [
    | blob bytes ↦ fetched number bytes
    | fetch_error is_abort status ↦
        if is_aborted number then rejected aborted_fetch else rejected (request_error status)
  ]
  fetch_from (suc retries) number =
      let again = fetch_from retries (number + 1) in
      elim (answers number) [
        | blob bytes ↦ fetched number bytes
        | fetch_error is_abort status ↦
            if is_aborted number
            then rejected aborted_fetch
            else if is_abort
            then rejected (request_error status)
            else retried (backoff number) again
      ]

  unfoldable pub fetch_range : Bool → Fetched
  unfolding fetch_from
  fetch_range aborted_before =
      if aborted_before
      then record { outcome = throw aborted_fetch; requests = 0; waits = [] }
      else fetch_from max_retries 0
