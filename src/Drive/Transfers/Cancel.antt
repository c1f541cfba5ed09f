-- ===== src/Drive/Transfers/Cancel.antt =====
-- What a cancellation leaves of a transfer, and of a group.
use text.Mathlib.Text.{◌==◌ as str_eq}
use text.Mathlib.TextEquality.{eq_iff}
use save_box.Prelude.{
  ◌≡◌, refl, ap, inl, inr, true, false, not, Option, some, none, List, [], ◌∷◌, map, String,
  if◌then◌else◌, select, find_first, Bool-cases, arith,
}
use save_box.Drive.Transfers.{
  TransferItem, State, has_id, includes, remove, update_transfer, set_paused, pause_transfer,
  record_cancelled_transfer, recorded, cancel_transfer,
}

recorded-transfers : (o : Option TransferItem) (s : State) → (recorded o s).transfers ≡ s.transfers
unfolding record_cancelled_transfer
recorded-transfers none s = refl
recorded-transfers (some t) s = ground arith

recorded-paused :
    (o : Option TransferItem) (s : State)
    → ((recorded o s).paused ≡ s.paused) × ((recorded o s).cancelled ≡ s.cancelled)
unfolding record_cancelled_transfer
recorded-paused none s = (refl, refl)
recorded-paused (some t) s = ground arith

pub str_eq_refl : (s : String) → str_eq s s ≡ true
str_eq_refl s = (eq_iff s s).1 refl

pub str_eq_away : (s t : String) → str_eq s t ≡ false → str_eq t s ≡ false
str_eq_away s t away = elim (Bool-cases (str_eq t s)) [
  | inr apart ↦ apart
  | inl equal ↦ let at : t ≡ s = (eq_iff t s).0 equal in cc (str_eq_refl s)
]

select-paused :
    (id : String) (ts : List TransferItem)
    → select (λ t. not (has_id id t)) (map (λ t. if has_id id t then set_paused t else t) ts)
      ≡ select (λ t. not (has_id id t)) ts
select-paused id [] = refl
select-paused id (t ∷ ts) = elim (Bool-cases (has_id id t)) [
  | inl same ↦ rw same (rw same (select-paused id ts))
  | inr other ↦ rw other (rw other (ap (◌∷◌ t) (select-paused id ts)))
]

pub cancel_transfer-transfers :
    (id : String) (s : State)
    → (cancel_transfer id s).transfers ≡ select (λ t. not (has_id id t)) s.transfers
unfolding cancel_transfer pause_transfer update_transfer
cancel_transfer-transfers id s =
    rw
      (recorded-transfers
        (find_first (has_id id) (map (λ t. if has_id id t then set_paused t else t) s.transfers))
        (pause_transfer id (record s { cancelled = id ∷ s.cancelled })))
      (select-paused id s.transfers)

includes-remove : (id : String) (ids : List String) → includes (remove id ids) id ≡ false
includes-remove id [] = refl
includes-remove id (x ∷ ids) = elim (Bool-cases (str_eq x id)) [
  | inl same ↦ rw same (includes-remove id ids)
  | inr other ↦
      let away : str_eq id x ≡ false = str_eq_away x id other in
      rw other (rw away (includes-remove id ids))
]

find_first-gone :
    (id : String) (ts : List TransferItem)
    → find_first (has_id id) (select (λ t. not (has_id id t)) ts) ≡ none
find_first-gone id [] = refl
find_first-gone id (t ∷ ts) = elim (Bool-cases (has_id id t)) [
  | inl same ↦ rw same (find_first-gone id ts)
  | inr other ↦ rw other (rw other (find_first-gone id ts))
]

-- After a cancellation no transfer with its id is left and the other transfers are as before; the id is
-- neither among the paused and the cancelled transfers nor among the active downloads.
pub cancel_transfer-forgets :
    (id : String) (s : State)
    → ((cancel_transfer id s).transfers ≡ select (λ t. not (has_id id t)) s.transfers)
      × (find_first (has_id id) (cancel_transfer id s).transfers ≡ none)
      × (includes (cancel_transfer id s).paused id ≡ false)
      × (includes (cancel_transfer id s).cancelled id ≡ false)
      × (includes (cancel_transfer id s).active_downloads id ≡ false)
unfolding cancel_transfer
cancel_transfer-forgets id s = (
  cancel_transfer-transfers id s,
  rw (cancel_transfer-transfers id s) (find_first-gone id s.transfers),
  includes-remove id _,
  includes-remove id _,
  includes-remove id _,
)
