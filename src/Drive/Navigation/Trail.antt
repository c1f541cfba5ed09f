-- ===== src/Drive/Navigation/Trail.antt =====
-- The two histories as one trail of folders, around the current one.
use save_box.Prelude.{
  ℕ, ◌≡◌, ◌≢◌, refl, sym, true, false, Option, some, none, List, [], ◌∷◌, ==_iff, Bool-cases, inl,
  inr,
}
use save_box.Drive.Files.{DriveFile, same_folder}
use save_box.Drive.Navigation.{
  State, set_current_folder, navigate_to, go_back, go_forward, parent_of, navigate_up,
  clear_decrypted_names,
}

-- No folder stands next to itself.
abbrev pub AreApart : List (Option ℕ) → Type 0
AreApart [] = Unit
AreApart (x ∷ []) = Unit
AreApart (x ∷ y ∷ xs) = (x ≢ y) × AreApart (y ∷ xs)

abbrev pub IsTrail : State → Type 0
IsTrail s = AreApart (s.current ∷ s.back) × AreApart (s.current ∷ s.forward)

pub data Step (s : State) : State → Type 0 where
  to : (id : Option ℕ) → Step s (navigate_to id s)
  back : Step s (go_back s)
  forward : Step s (go_forward s)
  up : Step s (navigate_up s)

pub data Reach (s : State) : State → Type 0 where
  here : Reach s s
  next : {t u : State} → Reach s t → Step t u → Reach s u

same_folder_refl : (x : Option ℕ) → same_folder x x ≡ true
same_folder_refl none = refl
same_folder_refl (some i) = (==_iff i i).1 refl

same_folder_ne : (x y : Option ℕ) → same_folder x y ≡ false → y ≢ x
same_folder_ne x y apart same = cc (rw same at apart, same_folder_refl x)

AreApart-tail : (x : Option ℕ) (xs : List (Option ℕ)) → AreApart (x ∷ xs) → AreApart xs
AreApart-tail x [] h = tt
AreApart-tail x (y ∷ xs) h = h.1

navigate_to-IsTrail : (id : Option ℕ) (s : State) → IsTrail s → IsTrail (navigate_to id s)
unfolding navigate_to set_current_folder
navigate_to-IsTrail id s h = elim (Bool-cases (same_folder s.current id)) [
  | inl stay ↦ rw (stay, navigate_to) h
  | inr go ↦ rw (go, navigate_to) ((same_folder_ne s.current id go, h.0), tt)
]

go_back-IsTrail :
    (files : List DriveFile) (c : Option ℕ) (bs fs : List (Option ℕ)) (chosen : List ℕ)
    → AreApart (c ∷ bs)
    → AreApart (c ∷ fs)
    → IsTrail (
        go_back (record { files = files; current = c; back = bs; forward = fs; selected = chosen }))
unfolding go_back set_current_folder
go_back-IsTrail files c [] fs chosen h k = (h, k)
go_back-IsTrail files c (t ∷ bs) fs chosen h k = (h.1, ((λ e. h.0 (sym e)), k))

go_forward-IsTrail :
    (files : List DriveFile) (c : Option ℕ) (bs fs : List (Option ℕ)) (chosen : List ℕ)
    → AreApart (c ∷ bs)
    → AreApart (c ∷ fs)
    → IsTrail (
        go_forward
          (record { files = files; current = c; back = bs; forward = fs; selected = chosen }))
unfolding go_forward set_current_folder
go_forward-IsTrail files c bs [] chosen h k = (h, k)
go_forward-IsTrail files c bs (t ∷ fs) chosen h k = (((λ e. k.0 (sym e)), h), k.1)

navigate_up-IsTrail :
    (files : List DriveFile) (c : Option ℕ) (bs fs : List (Option ℕ)) (chosen : List ℕ)
    → AreApart (c ∷ bs)
    → AreApart (c ∷ fs)
    → IsTrail (
        navigate_up
          (record { files = files; current = c; back = bs; forward = fs; selected = chosen }))
unfolding navigate_up
navigate_up-IsTrail files none bs fs chosen h k = (h, k)
navigate_up-IsTrail files (some id) bs fs chosen h k =
    elim (Bool-cases (same_folder (parent_of files id) (some id))) [
      | inl stay ↦ rw (stay, navigate_up) (h, k)
      | inr go ↦
          rw (go, navigate_up)
            (((λ e. same_folder_ne (parent_of files id) (some id) go (sym e)), h), tt)
    ]

-- From a state whose trail has no folder next to itself, every sequence of navigations reaches such a
-- state: neither history has the current folder as its last entry, or a folder twice in a row.
pub Reach-IsTrail : {s t : State} → IsTrail s → Reach s t → IsTrail t
Reach-IsTrail h here = h
Reach-IsTrail h (next {t} r (to id)) = navigate_to-IsTrail id t (Reach-IsTrail h r)
Reach-IsTrail h (next {t} r back) =
    let (b, f) = Reach-IsTrail h r in
    go_back-IsTrail t.files t.current t.back t.forward t.selected b f
Reach-IsTrail h (next {t} r forward) =
    let (b, f) = Reach-IsTrail h r in
    go_forward-IsTrail t.files t.current t.back t.forward t.selected b f
Reach-IsTrail h (next {t} r up) =
    let (b, f) = Reach-IsTrail h r in
    navigate_up-IsTrail t.files t.current t.back t.forward t.selected b f

-- After a navigation to another folder, one step back returns to the folder and the history before it,
-- with an empty selection, and one more step forward to the other folder.
pub go_back-navigate_to :
    (id : Option ℕ) (s : State)
    → same_folder s.current id ≡ false
    → (go_back (navigate_to id s) ≡ record s { forward = id ∷ []; selected = [] })
      × (go_forward (go_back (navigate_to id s)) ≡ navigate_to id s)
unfolding go_back go_forward navigate_to set_current_folder
go_back-navigate_to id s go = (rw (go, navigate_to) refl, rw (go, navigate_to) refl)

-- No name is shown.
abbrev pub AreHidden : List DriveFile → Type 0
AreHidden [] = Unit
AreHidden (f ∷ files) = (f.decrypted_name ≡ none) × AreHidden files

hidden :
    (files : List DriveFile) (c : Option ℕ) (bs fs : List (Option ℕ)) (chosen : List ℕ)
    → AreHidden
        (clear_decrypted_names
          (record { files = files; current = c; back = bs; forward = fs; selected = chosen })).files
unfolding clear_decrypted_names
hidden [] c bs fs chosen = tt
hidden (f ∷ files) c bs fs chosen = (refl, hidden files c bs fs chosen)

-- Names that are cleared stay so on the way to the root.
pub navigate_to-clear_decrypted_names :
    (s : State)
    → AreHidden (navigate_to none (clear_decrypted_names s)).files
      × ((navigate_to none (clear_decrypted_names s)).current ≡ none)
unfolding navigate_to set_current_folder clear_decrypted_names
navigate_to-clear_decrypted_names s = elim (Bool-cases (same_folder s.current none)) [
  | inl stay ↦
      rw (stay, navigate_to)
        (hidden s.files s.current s.back s.forward s.selected, at_root s.current stay)
  | inr go ↦ rw (go, navigate_to) (hidden s.files s.current s.back s.forward s.selected, refl)
]
  where
    at_root : (c : Option ℕ) → same_folder c none ≡ true → c ≡ none
    at_root none h = refl
    at_root (some i) h = cc
