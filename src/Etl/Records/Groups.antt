-- ===== src/Etl/Records/Groups.antt =====
-- The grouping of the names by days in src/cli/etl/record.rs.
use mathlib.Core.List.Perm
use mathlib.Core.List.{Perm, perm_middle}
use hiero_streams_rs.Prelude.{
  append_assoc, ◌≡◌, inl, inr, Bool-cases, List, [], ◌∷◌, ◌++◌, leb, bytes_eq, length, take, All,
}
use hiero_streams_rs.Text.{Text, text_leb}
use hiero_streams_rs.Etl.Types.{done, done_injective}
use hiero_streams_rs.Etl.Records.{Day, push_file, group_days}

-- Every day has a file.
abbrev pub Filled : List Text → Type 0
Filled [] = ⊥
Filled (name ∷ names) = Unit

Filled-snoc : (xs : List Text) (x : Text) → Filled (xs ++ (x ∷ []))
Filled-snoc [] x = tt
Filled-snoc (y ∷ xs) x = tt

abbrev pub AllFilled : List Day → Type 0
AllFilled days = All (λ d. Filled d.files) days

push_file-AllFilled :
    (day name : Text) (days : List Day) → AllFilled days → AllFilled (push_file day name days)
unfolding push_file
push_file-AllFilled day name [] h = (tt, tt)
push_file-AllFilled day name (d ∷ days) (h, hs) = elim (Bool-cases (bytes_eq day d.day)) [
  | inl same ↦ rw same (Filled-snoc d.files name, hs)
  | inr other ↦ elim (Bool-cases (text_leb day d.day)) [
    | inl before ↦ rw (other, before) (tt, (h, hs))
    | inr behind ↦ rw (other, behind) (h, push_file-AllFilled day name days hs)
  ]
]

pub group_days-AllFilled :
    (names : List Text) (days : List Day) {grouped : List Day}
    → group_days names days ≡ done grouped
    → AllFilled days
    → AllFilled grouped
unfolding group_days
group_days-AllFilled [] days e h = rw (← done_injective e) h
group_days-AllFilled (name ∷ names) days e h = elim (Bool-cases (leb 10 (length name))) [
  | inl long ↦
      group_days-AllFilled names (push_file (take 10 name) name days) (rw long at e)
        (push_file-AllFilled (take 10 name) name days h)
  | inr short ↦ absurd (cc (rw short at e))
]

-- The names of all days, in the order of the days.
abbrev pub all_names : List Day → List Text
all_names [] = []
all_names (d ∷ days) = d.files ++ all_names days

past_first :
    (d : Day) (x : Text) (ys rest : List Text)
    → Perm ys (x ∷ rest)
    → Perm (d.files ++ ys) (x ∷ (d.files ++ rest))
past_first d x ys rest p = Perm.trans (Perm.append_left d.files p) (perm_middle d.files rest)

push_file-Perm :
    (day name : Text) (days : List Day)
    → Perm (all_names (push_file day name days)) (name ∷ all_names days)
unfolding push_file
push_file-Perm day name [] = Perm.refl (name ∷ [])
push_file-Perm day name (d ∷ days) = elim (Bool-cases (bytes_eq day d.day)) [
  | inl same ↦ rw same (
      rw (append_assoc d.files (name ∷ []) (all_names days)) (perm_middle d.files (all_names days)))
  | inr other ↦ elim (Bool-cases (text_leb day d.day)) [
    | inl before ↦ rw (other, before) (Perm.refl (name ∷ (d.files ++ all_names days)))
    | inr behind ↦
        rw (other, behind)
          (past_first d name (all_names (push_file day name days)) (all_names days)
            (push_file-Perm day name days))
  ]
]

-- Grouping loses no name and adds none.
pub group_days-Perm :
    (names : List Text) (days : List Day) {grouped : List Day}
    → group_days names days ≡ done grouped
    → Perm (all_names grouped) (names ++ all_names days)
unfolding group_days
group_days-Perm [] days e = rw (← done_injective e) (Perm.refl (all_names days))
group_days-Perm (name ∷ names) days e = elim (Bool-cases (leb 10 (length name))) [
  | inr short ↦ absurd (cc (rw short at e))
  | inl long ↦
      let pushed = push_file (take 10 name) name days in
      let later = group_days-Perm names pushed (rw long at e) in
      let first = Perm.append_left names (push_file-Perm (take 10 name) name days) in
      Perm.trans later (Perm.trans first (perm_middle names (all_names days)))
]
