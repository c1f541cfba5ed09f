-- ===== src/Drive/Transfers/Settle.antt =====
-- A group that is cancelled comes to its end.
use mathlib.Core.Path.{subst}
use text.Mathlib.Text.{◌==◌ as str_eq}
use text.Mathlib.TextEquality.{eq_iff}
use save_box.Prelude.{
  ◌≡◌, refl, sym, ◌∙◌, ◌⊎◌, inl, inr, true, false, not, Option, some, none, List, [], ◌∷◌, String,
  find_first, Bool-cases, arith,
}
use save_box.Drive.Transfers.{
  TransferItem, TransferGroup, State, has_id, includes, cancel_transfer, in_group, find_group,
  is_done, is_open, cancel_all,
}
use save_box.Drive.Transfers.Record.{
  Keeps, Keeps-refl, Keeps-trans, find_first-apart, cancel_transfer-step,
}
use save_box.Drive.Transfers.Cancel.{cancel_transfer-transfers, str_eq_refl}

-- A transfer of a group is in the list under the group, or was recorded when it was cancelled.
abbrev pub IsKnown : State → TransferGroup → String → Type 0
IsKnown s g id =
    (includes g.cancelled_transfer_ids id ≡ true)
    ⊎ ((t : TransferItem) × (find_first (has_id id) s.transfers ≡ some t)
        × (in_group t.group_id g ≡ true))

abbrev pub IsSettled : State → TransferGroup → String → Type 0
IsSettled s g id =
    (includes g.cancelled_transfer_ids id ≡ true)
    ⊎ ((t : TransferItem) × (find_first (has_id id) s.transfers ≡ some t) × (is_done t ≡ true))

-- Another transfer than the cancelled one is found as before.
find_first-cancel :
    (id x : String) (s : State) (t : TransferItem)
    → str_eq id x ≡ false
    → find_first (has_id id) s.transfers ≡ some t
    → find_first (has_id id) (cancel_transfer x s).transfers ≡ some t
find_first-cancel id x s t apart found =
    rw (cancel_transfer-transfers x s) (find_first-apart id x s.transfers apart ∙ found)

in_group-Keeps :
    (o : Option String) (g h : TransferGroup)
    → Keeps g h
    → in_group o g ≡ true
    → in_group o h ≡ true
in_group-Keeps none g h keeps member = member
in_group-Keeps (some id) g h keeps member = rw keeps.named member

module _ (gid : String) where
  -- A group's state on the way through a cancellation of several transfers.
  pub record Settles (ids : List String) (s s' : State) (g : TransferGroup) : Type 0 where
    pub group : TransferGroup
    pub found : find_group gid s' ≡ some group
    pub keeps : Keeps g group
    pub settled : (id : String) → includes ids id ≡ true → IsSettled s' group id
    pub stays : (id : String) → IsSettled s g id → IsSettled s' group id
    pub known : (id : String) → IsKnown s g id → IsKnown s' group id

  cancel_transfer-Settles :
      (x : String) (s : State) (g : TransferGroup)
      → find_group gid s ≡ some g
      → str_eq g.id "" ≡ false
      → IsKnown s g x
      → is_open (find_first (has_id x) s.transfers) ≡ true
      → Settles (x ∷ []) s (cancel_transfer x s) g
  cancel_transfer-Settles x s g found named known open_now =
      let (h, found', keeps, taken) = cancel_transfer-step gid x s g found named in
      let here : includes h.cancelled_transfer_ids x ≡ true = elim known [
        | inl already ↦ keeps.recorded_ids x already
        | inr (t, there, member) ↦ taken t there member
      ] in
      let at_x : (id : String) → str_eq id x ≡ true → includes h.cancelled_transfer_ids id ≡ true =
        λ id same.
          subst (λ (k : String). includes h.cancelled_transfer_ids k ≡ true)
            (sym ((eq_iff id x).0 same)) here in
      record {
        group = h;
        found = found';
        keeps = keeps;
        settled = λ id listed. elim (Bool-cases (str_eq id x)) [
          | inl same ↦ inl (at_x id same)
          | inr other ↦ cc (rw other at listed)
        ];
        stays = λ id settled. elim settled [
          | inl already ↦ inl (keeps.recorded_ids id already)
          | inr (t, there, done) ↦ elim (Bool-cases (str_eq id x)) [
            | inl same ↦ inl (at_x id same)
            | inr other ↦ inr (t, find_first-cancel id x s t other there, done)
          ]
        ];
        known = λ id before. elim before [
          | inl already ↦ inl (keeps.recorded_ids id already)
          | inr (t, there, member) ↦ elim (Bool-cases (str_eq id x)) [
            | inl same ↦ inl (at_x id same)
            | inr other ↦ inr (
              t,
              find_first-cancel id x s t other there,
              in_group-Keeps t.group_id g h keeps member,
            )
          ]
        ];
      }

  closed-Settles :
      (x : String) (s : State) (g : TransferGroup)
      → find_group gid s ≡ some g
      → IsKnown s g x
      → is_open (find_first (has_id x) s.transfers) ≡ false
      → Settles (x ∷ []) s s g
  closed-Settles x s g found known closed = record {
    group = g;
    found = found;
    keeps = Keeps-refl g;
    settled = λ id listed. elim (Bool-cases (str_eq id x)) [
      | inr other ↦ cc (rw other at listed)
      | inl same ↦ subst (IsSettled s g) (sym ((eq_iff id x).0 same)) (elim known [
        | inl already ↦ inl already
        | inr (t, there, member) ↦ inr (t, there, not_false t (rw there at closed))
      ])
    ];
    stays = λ id settled. settled;
    known = λ id before. before;
  }
    where
      not_false : (t : TransferItem) → not (is_done t) ≡ false → is_done t ≡ true
      not_false t h = ground arith

  Settles-trans :
      (x : String) (ids : List String) (s s' s'' : State) (g : TransferGroup)
      → (first : Settles (x ∷ []) s s' g) → Settles ids s' s'' first.group
      → Settles (x ∷ ids) s s'' g
  Settles-trans x ids s s' s'' g first rest = record {
    group = rest.group;
    found = rest.found;
    keeps = Keeps-trans g first.group rest.group first.keeps rest.keeps;
    settled = λ id listed. elim (Bool-cases (str_eq id x)) [
      | inl same ↦ rest.stays id (first.settled id (rw same refl))
      | inr other ↦ rest.settled id (rw other at listed)
    ];
    stays = λ id settled. rest.stays id (first.stays id settled);
    known = λ id before. rest.known id (first.known id before);
  }

  pub cancel_all-Settles :
      (ids : List String) (s : State) (g : TransferGroup)
      → find_group gid s ≡ some g
      → str_eq g.id "" ≡ false
      → ((id : String) → includes ids id ≡ true → IsKnown s g id)
      → Settles ids s (cancel_all ids s) g
  unfolding cancel_all
  cancel_all-Settles [] s g found named known = record {
    group = g;
    found = found;
    keeps = Keeps-refl g;
    settled = λ id listed. cc;
    stays = λ id settled. settled;
    known = λ id before. before;
  }
  cancel_all-Settles (x ∷ ids) s g found named known =
      let known_x : IsKnown s g x = known x (rw (str_eq_refl x) refl) in
      let later =
        λ (id : String) (listed : includes ids id ≡ true). known id (tail x ids id listed) in
      elim (Bool-cases (is_open (find_first (has_id x) s.transfers))) [
        | inl open_now ↦
            let first = cancel_transfer-Settles x s g found named known_x open_now in
            rw (open_now, cancel_all)
              (Settles-trans x ids s (cancel_transfer x s) _ g first (
                cancel_all-Settles ids (cancel_transfer x s) first.group first.found
                  (rw first.keeps.named named) (λ id listed. first.known id (later id listed))))
        | inr closed ↦
            let first = closed-Settles x s g found known_x closed in
            rw (closed, cancel_all)
              (Settles-trans x ids s s _ g first (
                cancel_all-Settles ids s first.group first.found (rw first.keeps.named named)
                  (λ id listed. first.known id (later id listed))))
      ]
    where
      tail :
          (x : String) (ids : List String) (id : String)
          → includes ids id ≡ true
          → includes (x ∷ ids) id ≡ true
      tail x ids id there = elim (Bool-cases (str_eq id x)) [
        | inl h ↦ rw h refl
        | inr h ↦ rw h there
      ]
