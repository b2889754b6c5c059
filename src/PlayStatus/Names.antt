-- ===== src/PlayStatus/Names.antt =====
-- The names that Play has on a track, and those that a release is matched with.
use mathlib.Core.Path.{subst}
use text.Mathlib.TextPositions.{starts_with-append}
use text.Mathlib.TextLemmas.{append_assoc}
use release_hub.Base.{
  String, Bool, true, false, none, some, List, [], ◌∷◌, ◌++◌, ◌+++◌, ◌==◌, ◌≡◌, refl, sym, ◌∙◌, ap,
  arith, any_of, find_first, starts_with, eq_iff, inl, inr, Bool-cases, Option-cases,
}
use release_hub.Text.Number.{decimal}
use release_hub.Db.{Release}
use release_hub.PlayStatus.{names_on, wanted_name}

abbrev pub IsAmong : String → List String → Type 0
IsAmong name names = any_of (λ n. n == name) names ≡ true

-- These are the names on the track: its last entry counts.
abbrev pub IsLast : String → List String → List (String × List String) → Type 0
IsLast track names tracks =
    (before : List (String × List String)) × (after : List (String × List String)) × (tracks
      ≡ before ++ (track, names) ∷ after)
    × (any_of (λ e. e.0 == track) after ≡ false)

-- The name is of the release's version: "<version name> (…".
abbrev pub IsVersion : Release → String → Type 0
IsVersion rel name = starts_with name (rel.version_name +++ " (") ≡ true

names_on-none :
    (track : String) (tracks : List (String × List String))
    → any_of (λ e. e.0 == track) tracks ≡ false
    → names_on track tracks ≡ none
unfolding names_on any_of
names_on-none track [] h = refl
names_on-none track ((t, names) ∷ tracks) h =
    rw (names_on-none track tracks (ground (arith, h))) (ground (arith, h))

none-names_on :
    (track : String) (tracks : List (String × List String))
    → names_on track tracks ≡ none
    → any_of (λ e. e.0 == track) tracks ≡ false
unfolding names_on any_of
none-names_on track [] h = refl
none-names_on track ((t, names) ∷ tracks) h = elim (Option-cases (names_on track tracks)) [
  | inl no_later ↦
      let here = rw no_later at h in ground (arith, none-names_on track tracks no_later, here)
  | inr (later, e) ↦ absurd (let no = rw e at h in cc no)
]

pub IsLast-names_on :
    (track : String) (names : List String) (before after : List (String × List String))
    → any_of (λ e. e.0 == track) after ≡ false
    → names_on track (before ++ (track, names) ∷ after) ≡ some names
unfolding names_on
IsLast-names_on track names [] after h =
    rw (names_on-none track after h, (eq_iff track track).1 refl) refl
IsLast-names_on track names ((t, ns) ∷ before) after h =
    rw (IsLast-names_on track names before after h) refl

pub names_on-IsLast :
    (track : String) (tracks : List (String × List String)) (names : List String)
    → names_on track tracks ≡ some names
    → IsLast track names tracks
unfolding names_on
names_on-IsLast track [] names h = absurd (cc h)
names_on-IsLast track ((t, ns) ∷ tracks) names h = elim (Option-cases (names_on track tracks)) [
  | inl no_later ↦ elim (Bool-cases (t == track)) [
    | inl here ↦
        let e = rw (no_later, here) at h in
        (
          [],
          tracks,
          ap (λ p. p ∷ tracks) (cc ((eq_iff t track).0 here, e)),
          none-names_on track tracks no_later,
        )
    | inr other ↦ absurd (let no = rw (no_later, other) at h in cc no)
  ]
  | inr (later, e) ↦
      let (before, after, split, last) = names_on-IsLast track tracks names (e ∙ (rw e at h)) in
      ((t, ns) ∷ before, after, ap (λ ps. (t, ns) ∷ ps) split, last)
]

pub find_first-some :
    (p : String → Bool) (names : List String) (name : String)
    → find_first p names ≡ some name
    → (p name ≡ true) × IsAmong name names
unfolding find_first any_of
find_first-some p [] name h = absurd (cc h)
find_first-some p (n ∷ names) name h = elim (Bool-cases (p n)) [
  | inl passes ↦
      let e : n ≡ name = let s = rw passes at h in cc s in
      (rw (sym e) passes, rw ((eq_iff n name).1 e) refl)
  | inr fails ↦
      let (holds, among) = find_first-some p names name (rw fails at h) in
      (holds, ground (arith, among))
]

pub find_first-none :
    (p : String → Bool) (names : List String) (name : String)
    → find_first p names ≡ none
    → IsAmong name names
    → p name ≡ false
unfolding find_first any_of
find_first-none p [] name h among = absurd (cc among)
find_first-none p (n ∷ names) name h among = elim (Bool-cases (p n)) [
  | inl passes ↦ absurd (let no = rw passes at h in cc no)
  | inr fails ↦ elim (Bool-cases (n == name)) [
    | inl same ↦ rw (sym ((eq_iff n name).0 same)) fails
    | inr other ↦ find_first-none p names name (rw fails at h) (rw other at among)
  ]
]

-- The exact name is of the version too.
pub wanted_name-IsVersion : (rel : Release) → IsVersion rel (wanted_name rel)
unfolding wanted_name
wanted_name-IsVersion rel =
    subst (IsVersion rel) (append_assoc rel.version_name " (" (decimal rel.version_code +++ ")"))
      (starts_with-append (rel.version_name +++ " (") (decimal rel.version_code +++ ")"))
