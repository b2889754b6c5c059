-- ===== src/PlayStatus/Outcome.antt =====
-- What the settling of one release comes to, said of Play's tracks themselves.
use mathlib.Core.Path.{subst}
use release_hub.Base.{
  String, false, Option, none, some, List, ◌+++◌, ◌==◌, ◌≡◌, refl, sym, ◌∙◌, ap, ◌↔◌, any_of,
  starts_with, eq_iff, inl, inr, Bool-cases, Option-cases,
}
use release_hub.Text.Number.{decimal}
use release_hub.Db.{Release}
use release_hub.World.{Outside}
use release_hub.Channel.{track_for}
use release_hub.PlayStatus.{names_on, matching, matched_in, wanted_name}
use release_hub.PlayStatus.Settled.{settled, settled_as, found_name}
use release_hub.PlayStatus.Names.{
  IsAmong, IsLast, IsVersion, names_on-IsLast, IsLast-names_on, find_first-some, find_first-none,
  wanted_name-IsVersion,
}

module _ (tracks : List (String × List String)) where
  -- A pending release with a name of its version on the track of its channel becomes ok with such a
  -- name, which is the one with its version code if that is there. Any other release stays as it was.
  pub record Becomes (rel after : Release) : Type 0 where
    pub settles :
        (track name : String) (names : List String)
        → rel.play_status ≡ "pending"
        → track_for rel.channel ≡ some track
        → IsLast track names tracks
        → IsAmong name names
        → IsVersion rel name
        → (chosen : String) × IsAmong chosen names
          × IsVersion rel chosen
          × (IsAmong (rel.version_name +++ (" (" +++ (decimal rel.version_code +++ ")"))) names
              → chosen ≡ rel.version_name +++ (" (" +++ (decimal rel.version_code +++ ")")))
          × (after ≡ record rel { play_status = "ok"; play_error = ""; play_release = chosen })
    pub stays :
        ((track name : String) (names : List String)
          → rel.play_status ≡ "pending"
          → track_for rel.channel ≡ some track
          → IsLast track names tracks
          → IsAmong name names
          → starts_with name (rel.version_name +++ " (") ≡ false)
        → after ≡ rel

-- What `matching` finds is on the track and of the version, and is the exact name where that is there.
module _ (x : Outside) (order : List String → List String)
    (same_names : (names : List String) (name : String)
      → IsAmong name (order names) ↔ IsAmong name names) where
  matching-some :
      (rel : Release) (names : List String) (name : String)
      → matching x order rel names ≡ some name
      → IsAmong name names
        × IsVersion rel name
        × (IsAmong (wanted_name rel) names → name ≡ wanted_name rel)
  unfolding matching
  matching-some rel names name h = elim (Bool-cases (any_of (λ n. n == wanted_name rel) names)) [
    | inl exact ↦
        let e : wanted_name rel ≡ name = let s = rw exact at h in cc s in
        (
          subst (λ n. IsAmong n names) e exact,
          subst (IsVersion rel) e (wanted_name-IsVersion rel),
          λ _. sym e,
        )
    | inr not_there ↦
        let (version, among) =
          find_first-some (λ n. starts_with n (rel.version_name +++ " (")) (order names) name
            (rw not_there at h) in
        ((same_names names name).0 among, version, λ there. absurd (cc (there, not_there)))
  ]

  matching-none :
      (rel : Release) (names : List String) (name : String)
      → matching x order rel names ≡ none
      → IsAmong name names
      → starts_with name (rel.version_name +++ " (") ≡ false
  unfolding matching
  matching-none rel names name h among =
      elim (Bool-cases (any_of (λ n. n == wanted_name rel) names)) [
        | inl exact ↦ absurd (let no = rw exact at h in cc no)
        | inr not_there ↦
            find_first-none (λ n. starts_with n (rel.version_name +++ " (")) (order names) name
              (rw not_there at h) ((same_names names name).1 among)
      ]

  module _ (tracks : List (String × List String)) where
    found_name-track :
        (rel : Release) (track : String) (names : List String)
        → rel.play_status ≡ "pending"
        → track_for rel.channel ≡ some track
        → names_on track tracks ≡ some names
        → found_name x order tracks rel ≡ matching x order rel names
    unfolding found_name matched_in
    found_name-track rel track names pending on_track there =
        rw ((eq_iff rel.play_status "pending").1 pending, on_track, there, matched_in) refl

    found_name-some :
        (rel : Release) (name : String)
        → found_name x order tracks rel ≡ some name
        → (track : String) × (names : List String) × (rel.play_status ≡ "pending")
          × (track_for rel.channel ≡ some track)
          × (names_on track tracks ≡ some names)
          × (matching x order rel names ≡ some name)
    unfolding found_name matched_in
    found_name-some rel name h = elim (Bool-cases (rel.play_status == "pending")) [
      | inl pending ↦ elim (Option-cases (track_for rel.channel)) [
        | inl no_track ↦ absurd (let no = rw (pending, no_track) at h in cc no)
        | inr (track, e) ↦ elim (Option-cases (names_on track tracks)) [
          | inl nothing ↦ absurd (let no = rw (pending, e, nothing, matched_in) at h in cc no)
          | inr (names, there) ↦ (
            track,
            names,
            (eq_iff rel.play_status "pending").0 pending,
            e,
            there,
            rw (pending, e, there, matched_in) at h,
          )
        ]
      ]
      | inr other ↦ absurd (let no = rw other at h in cc no)
    ]

    settled-found :
        (rel : Release) (o : Option String)
        → found_name x order tracks rel ≡ o
        → settled x order tracks rel ≡ settled_as rel o
    unfolding settled
    settled-found rel o e = ap (settled_as rel) e

    settles-matching :
        (rel : Release) (names : List String) (name : String) (o : Option String)
        → matching x order rel names ≡ o
        → settled x order tracks rel ≡ settled_as rel o
        → IsAmong name names
        → IsVersion rel name
        → (chosen : String) × IsAmong chosen names
          × IsVersion rel chosen
          × (IsAmong (wanted_name rel) names → chosen ≡ wanted_name rel)
          × (settled x order tracks rel
              ≡ record rel { play_status = "ok"; play_error = ""; play_release = chosen })
    settles-matching rel names name none e after among version =
        absurd (let no = matching-none rel names name e among in cc (no, version))
    settles-matching rel names name (some chosen) e after among version =
        let (there, good, exact) = matching-some rel names chosen e in
        (chosen, there, good, exact, after)

    pub Becomes-settled : (rel : Release) → Becomes tracks rel (settled x order tracks rel)
    unfolding wanted_name
    Becomes-settled rel = record {
      settles = λ track name names pending on_track (before, after, split, apart) among version.
          let there : names_on track tracks ≡ some names =
            ap (names_on track) split ∙ IsLast-names_on track names before after apart in
          settles-matching rel names name (matching x order rel names) refl
            (settled-found rel _ (found_name-track rel track names pending on_track there)) among
            version;
      stays = λ nothing. elim (Option-cases (found_name x order tracks rel)) [
        | inl no_name ↦ settled-found rel none no_name
        | inr (name, e) ↦
            let (track, names, pending, on_track, there, m) = found_name-some rel name e in
            let (among, version, _) = matching-some rel names name m in
            absurd (
              let no =
                nothing track name names pending on_track (names_on-IsLast track tracks names there)
                  among in
              cc (no, version))
      ];
    }
