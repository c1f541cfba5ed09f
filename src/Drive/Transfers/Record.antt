-- ===== src/Drive/Transfers/Record.antt =====
-- What a cancellation records in the groups, and which transfers it leaves.
use mathlib.Core.Path.{subst}
use text.Mathlib.Text.{◌==◌ as str_eq}
use text.Mathlib.TextEquality.{eq_iff}
use save_box.Prelude.{
  ◌≡◌, refl, ap, ◌∙◌, inl, inr, Bool, true, false, not, ◌||◌, some, none, List, [], ◌∷◌, ◌++◌, map,
  String, if◌then◌else◌, select, find_first, Bool-cases, Option-cases,
}
use save_box.Drive.Transfers.{
  TransferItem, TransferGroup, State, has_id, includes, update_transfer, set_paused, pause_transfer,
  record_in_group, record_cancelled_transfer, cancel_transfer, in_group, find_group,
}
use save_box.Drive.Transfers.Cancel.{str_eq_refl, str_eq_away}

-- A group after cancellations: nothing but more ids that are recorded.
pub record Keeps (g h : TransferGroup) : Type 0 where
  pub named : h.id ≡ g.id
  pub listed : h.transfer_ids ≡ g.transfer_ids
  pub recorded_ids :
      (id : String)
      → includes g.cancelled_transfer_ids id ≡ true
      → includes h.cancelled_transfer_ids id ≡ true

pub Keeps-refl : (g : TransferGroup) → Keeps g g
Keeps-refl g = record { named = refl; listed = refl; recorded_ids = λ id there. there }

pub Keeps-trans : (f g h : TransferGroup) → Keeps f g → Keeps g h → Keeps f h
Keeps-trans f g h a b = record {
  named = b.named ∙ a.named;
  listed = b.listed ∙ a.listed;
  recorded_ids = λ id there. b.recorded_ids id (a.recorded_ids id there);
}

includes-append_left :
    (xs ys : List String) (id : String) → includes xs id ≡ true → includes (xs ++ ys) id ≡ true
includes-append_left [] ys id h = cc
includes-append_left (x ∷ xs) ys id h = elim (Bool-cases (str_eq id x)) [
  | inl here ↦ rw here refl
  | inr away ↦ rw away (includes-append_left xs ys id (rw away at h))
]

includes-snoc : (xs : List String) (id : String) → includes (xs ++ id ∷ []) id ≡ true
includes-snoc [] id = rw (str_eq_refl id) refl
includes-snoc (x ∷ xs) id = elim (Bool-cases (str_eq id x)) [
  | inl here ↦ rw here refl
  | inr away ↦ rw away (includes-snoc xs id)
]

record_in_group-Keeps : (t : TransferItem) (g : TransferGroup) → Keeps g (record_in_group t g)
unfolding record_in_group
record_in_group-Keeps t g =
    elim (Bool-cases (not (in_group t.group_id g) || includes g.cancelled_transfer_ids t.id)) [
      | inl out ↦ rw (out, record_in_group) (Keeps-refl g)
      | inr new ↦
          rw (new, record_in_group)
            (record {
              named = refl;
              listed = refl;
              recorded_ids =
                  λ id there. includes-append_left g.cancelled_transfer_ids (t.id ∷ []) id there;
            })
    ]

record_in_group-includes :
    (t : TransferItem) (g : TransferGroup)
    → in_group t.group_id g ≡ true
    → includes (record_in_group t g).cancelled_transfer_ids t.id ≡ true
unfolding record_in_group
record_in_group-includes t g member = elim (Bool-cases (includes g.cancelled_transfer_ids t.id)) [
  | inl already ↦ rw (member, already, record_in_group) already
  | inr new ↦ rw (member, new, record_in_group) (includes-snoc g.cancelled_transfer_ids t.id)
]

find_first-map :
    {A : Type 0} (test : A → Bool) (change : A → A)
    → ((a : A) → test (change a) ≡ test a)
    → (xs : List A) (a : A) → find_first test xs ≡ some a
    → find_first test (map change xs) ≡ some (change a)
find_first-map test change keeps [] a h = cc
find_first-map test change keeps (x ∷ xs) a h = elim (Bool-cases (test x)) [
  | inl passes ↦ let at : x ≡ a = cc (rw passes at h) in rw (keeps x, passes, at) refl
  | inr fails ↦ rw (keeps x, fails) (find_first-map test change keeps xs a (rw fails at h))
]

find_first-map-none :
    {A : Type 0} (test : A → Bool) (change : A → A)
    → ((a : A) → test (change a) ≡ test a)
    → (xs : List A) → find_first test xs ≡ none
    → find_first test (map change xs) ≡ none
find_first-map-none test change keeps [] h = refl
find_first-map-none test change keeps (x ∷ xs) h = elim (Bool-cases (test x)) [
  | inl passes ↦ cc (rw passes at h)
  | inr fails ↦ rw (keeps x, fails) (find_first-map-none test change keeps xs (rw fails at h))
]

find_first-passes :
    {A : Type 0} (test : A → Bool) (xs : List A) (a : A)
    → find_first test xs ≡ some a
    → test a ≡ true
find_first-passes test [] a h = cc
find_first-passes test (x ∷ xs) a h = elim (Bool-cases (test x)) [
  | inl passes ↦ let at : x ≡ a = cc (rw passes at h) in rw⁻¹ at passes
  | inr fails ↦ find_first-passes test xs a (rw fails at h)
]

-- What the group `gid` has become, with the transfer `t` recorded if it is one of the group's.
abbrev Became : String → TransferGroup → TransferItem → State → Type 0
Became gid g t s =
    (h : TransferGroup) × (find_group gid s ≡ some h)
    × Keeps g h
    × (in_group t.group_id g ≡ true → includes h.cancelled_transfer_ids t.id ≡ true)

recorded-Became :
    (gid : String) (t : TransferItem) (s : State) (g : TransferGroup)
    → find_group gid s ≡ some g
    → str_eq g.id "" ≡ false
    → Became gid g t (record_cancelled_transfer t s)
unfolding record_cancelled_transfer
recorded-Became gid t s g found named = elim (Option-cases t.group_id) [
  | inl none_at ↦ rw (none_at, record_cancelled_transfer) (g, found, Keeps-refl g, λ member. cc)
  | inr (k, at) ↦ elim (Bool-cases (str_eq k "")) [
    | inl empty ↦
        rw (at, empty, record_cancelled_transfer)
          (g, found, Keeps-refl g, λ member. let same : g.id ≡ k = (eq_iff g.id k).0 member in cc)
    | inr full ↦
        let now =
          find_first-map (λ g. str_eq g.id gid) (record_in_group t)
            (λ h. ap (λ (n : String). str_eq n gid) (record_in_group-Keeps t h).named) s.groups g
            found in
        let within = record_in_group-includes t g in
        rw (at, full, record_cancelled_transfer)
          (record_in_group t g, now, record_in_group-Keeps t g, λ member. within (rw at member))
  ]
]

pub find_first-apart :
    (id x : String) (ts : List TransferItem)
    → str_eq id x ≡ false
    → find_first (has_id id) (select (λ t. not (has_id x t)) ts) ≡ find_first (has_id id) ts
find_first-apart id x [] apart = refl
find_first-apart id x (t ∷ ts) apart = elim (Bool-cases (has_id x t)) [
  | inl here ↦
      let at : t.id ≡ x = (eq_iff t.id x).0 here in
      let other : has_id id t ≡ false = rw at (str_eq_away id x apart) in
      rw (here, other) (find_first-apart id x ts apart)
  | inr away ↦ elim (Bool-cases (has_id id t)) [
    | inl found ↦ rw (away, found) refl
    | inr further ↦ rw (away, further) (find_first-apart id x ts apart)
  ]
]

paused_item : String → TransferItem → TransferItem
paused_item x t = if has_id x t then set_paused t else t

paused_item-has_id : (x : String) (t : TransferItem) → has_id x (paused_item x t) ≡ has_id x t
unfolding paused_item
paused_item-has_id x t = elim (Bool-cases (has_id x t)) [
  | inl same ↦ rw same same
  | inr other ↦ rw other other
]

paused_found :
    (x : String) (ts : List TransferItem) (t : TransferItem)
    → find_first (has_id x) ts ≡ some t
    → find_first (has_id x) (map (λ t. if has_id x t then set_paused t else t) ts)
      ≡ some (set_paused t)
unfolding paused_item
paused_found x ts t found =
    let here = find_first-passes (has_id x) ts t found in
    let now = find_first-map (has_id x) (paused_item x) (paused_item-has_id x) ts t found in
    rw here at now

pub cancel_transfer-step :
    (gid x : String) (s : State) (g : TransferGroup)
    → find_group gid s ≡ some g
    → str_eq g.id "" ≡ false
    → (h : TransferGroup) × (find_group gid (cancel_transfer x s) ≡ some h)
      × Keeps g h
      × ((t : TransferItem)
          → find_first (has_id x) s.transfers ≡ some t
          → in_group t.group_id g ≡ true
          → includes h.cancelled_transfer_ids x ≡ true)
unfolding cancel_transfer pause_transfer update_transfer paused_item
cancel_transfer-step gid x s g found named =
    elim (Option-cases (find_first (has_id x) s.transfers)) [
      | inl missing ↦
          let gone =
            find_first-map-none (has_id x) (paused_item x) (paused_item-has_id x) s.transfers
              missing in
          rw gone (g, found, Keeps-refl g, λ t there member. cc)
      | inr (t, there) ↦
          let now = paused_found x s.transfers t there in
          let at : t.id ≡ x =
            (eq_iff t.id x).0 (find_first-passes (has_id x) s.transfers t there) in
          let (h, found', keeps, taken) =
            recorded-Became gid (set_paused t)
              (pause_transfer x (record s { cancelled = x ∷ s.cancelled })) g found named in
          rw now (
            h,
            found',
            keeps,
            λ u there' member.
                let same : t ≡ u = cc in
                subst (λ (k : String). includes h.cancelled_transfer_ids k ≡ true) at
                  (taken (rw same member)),
          )
    ]
