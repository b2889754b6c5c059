-- ===== src/Text/PathName/Names.antt =====
-- The base of a name that is no path.
use text.Mathlib.TextLemmas.{nil-append, cons-append}
use release_hub.Base.{
  String, [], ◌∷◌, false, ◌≡◌, refl, ◌+++◌, ◌==◌, eq_iff, arith, Bool-cases, inl, inr, Bool-cases,
  inl, inr,
}
use release_hub.Text.PathName.{add_to_first, segments, last_nonempty, base_name}
use release_hub.Text.PathName.Contained.{HasNoSlash}

segments-name : (s : String) → HasNoSlash s → segments s ≡ s ∷ []
unfolding segments add_to_first
segments-name String.[] h = refl
segments-name (String.◌∷◌ c s) (h, hs) = rw (segments-name s hs) (ground (arith, h))

pub base_name-name : (s : String) → HasNoSlash s → (s == "") ≡ false → base_name s ≡ s
unfolding base_name last_nonempty
base_name-name s h filled = rw (filled, segments-name s h, filled) refl

pub append-HasNoSlash : (s t : String) → HasNoSlash s → HasNoSlash t → HasNoSlash (s +++ t)
append-HasNoSlash String.[] t h k = rw (nil-append t) k
append-HasNoSlash (String.◌∷◌ c s) t (h, hs) k =
    rw (cons-append c s t) (h, append-HasNoSlash s t hs k)

pub append-ne : (s t : String) → (t == "") ≡ false → ((s +++ t) == "") ≡ false
append-ne String.[] t h = rw (nil-append t) h
append-ne (String.◌∷◌ c s) t h =
    rw (cons-append c s t) (elim (Bool-cases (String.◌∷◌ c (s +++ t) == "")) [
      | inl e ↦ absurd (cc ((eq_iff (String.◌∷◌ c (s +++ t)) "").0 e))
      | inr e ↦ e
    ])
