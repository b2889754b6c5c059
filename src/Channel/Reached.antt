-- ===== src/Channel/Reached.antt =====
-- The tracks that a channel can reach, whatever its text is.
use mathlib.Core.Path.{subst}
use text.Mathlib.TextLemmas.{nil-append, cons-append, length-cons}
use Prim.Native.String.{[], ◌∷◌, count}
use release_hub.Base.{
  ℕ, String, Char, code, Bool, true, false, Option, none, some, ◌≤◌, ◌+++◌, ◌≡◌, ◌⊎◌, refl, arith,
  starts_with, ◌&&◌, ◌==◌, ◌||◌, if◌then◌else◌,
}
use release_hub.Text.{drop_chars}
use release_hub.Channel.{is_alnum, alnum_or_dash, closed_track_name, track_for}

-- A dash, a digit, or a letter from A to Z or from a to z.
abbrev pub IsNameCode : ℕ → Type 0
IsNameCode n = (n ≡ 45) ⊎ (((48 ≤ n) × (n ≤ 57)) ⊎ (((65 ≤ n) × (n ≤ 90)) ⊎ ((97 ≤ n) × (n ≤ 122))))

name_code : (c : Char) → alnum_or_dash (c ∷ []) ≡ true → IsNameCode (code c)
unfolding alnum_or_dash is_alnum
name_code c h = ground (arith, h)

first_code : (c : Char) (s : String) → alnum_or_dash (c ∷ s) ≡ true → alnum_or_dash (c ∷ []) ≡ true
unfolding alnum_or_dash
first_code c s h = ground (arith, h)

later_codes : (c : Char) (s : String) → alnum_or_dash (c ∷ s) ≡ true → alnum_or_dash s ≡ true
unfolding alnum_or_dash
later_codes c s h = ground (arith, h)

alnum_or_dash-code :
    (before after : String) (c : Char)
    → alnum_or_dash (before +++ (c ∷ after)) ≡ true
    → IsNameCode (code c)
alnum_or_dash-code [] after c h =
    name_code c (first_code c after (rw (nil-append (c ∷ after)) at h))
alnum_or_dash-code (d ∷ before) after c h =
    alnum_or_dash-code before after c
      (later_codes d (before +++ (c ∷ after)) (rw (cons-append d before (c ∷ after)) at h))

-- What the pattern of track names admits.
closed_track_name-all : (t : String) → closed_track_name t ≡ true → alnum_or_dash t ≡ true
unfolding closed_track_name alnum_or_dash
closed_track_name-all [] h = absurd (cc h)
closed_track_name-all (c ∷ s) h = ground (arith, h)

closed_track_name-count : (t : String) → closed_track_name t ≡ true → (2 ≤ count t) × (count t ≤ 29)
unfolding closed_track_name
closed_track_name-count [] h = absurd (cc h)
closed_track_name-count (c ∷ s) h =
    let (one, most) : (1 ≤ count s) × (count s ≤ 28) = ground (arith, h) in
    rw (length-cons c s) (omega (arith, one), omega (arith, most))

-- Any track in it has such a name.
record IsNamed (o : Option String) : Type 0 where
  pub named : (t : String) → o ≡ some t → closed_track_name t ≡ true

IsNamed-some : (t : String) → closed_track_name t ≡ true → IsNamed (some t)
IsNamed-some t h = record {
  named = λ s e. subst (λ u. closed_track_name u ≡ true) (let q = e in cc q) h;
}

IsNamed-none : IsNamed none
IsNamed-none = record { named = λ t e. absurd (cc e) }

IsNamed-if :
    (b : Bool) (o p : Option String)
    → (b ≡ true → IsNamed o)
    → IsNamed p
    → IsNamed (if b then o else p)
IsNamed-if true o p ho hp = ho refl
IsNamed-if false o p ho hp = hp

IsNamed-track_for : (channel : String) → IsNamed (track_for channel)
unfolding track_for
IsNamed-track_for channel =
    IsNamed-if (channel == "public") _ _ (λ _. IsNamed-some "production" refl)
      (IsNamed-if (channel == "beta" || channel == "open") _ _ (λ _. IsNamed-some "beta" refl)
        (IsNamed-if (channel == "alpha") _ _ (λ _. IsNamed-some "alpha" refl)
          (IsNamed-if (channel == "internal") _ _ (λ _. IsNamed-some "internal" refl)
            (IsNamed-if (channel == "direct") _ _ (λ _. IsNamed-none)
              (IsNamed-if (channel == "closed") _ _ (λ _. IsNamed-some "alpha" refl)
                (IsNamed-if
                  (starts_with channel "closed:"
                    && closed_track_name (drop_chars "closed:" channel))
                  _ _ (λ h. IsNamed-some (drop_chars "closed:" channel) (ground (arith, h)))
                  IsNamed-none))))))

-- Whatever text a channel is, a Play track that it reaches has a name of 2 to 29 characters, each of
-- which is a dash, a digit, or a letter from A to Z or from a to z.
pub track_for-IsNameCode :
    (channel track : String)
    → track_for channel ≡ some track
    → (2 ≤ count track)
      × (count track ≤ 29)
      × ((before after : String) (c : Char) → track ≡ before +++ (c ∷ after) → IsNameCode (code c))
track_for-IsNameCode channel track h =
    let good = (IsNamed-track_for channel).named track h in
    let (two, most) = closed_track_name-count track good in
    (
      two,
      most,
      λ before after c e.
          alnum_or_dash-code before after c
            (subst (λ t. alnum_or_dash t ≡ true) e (closed_track_name-all track good)),
    )
