-- ===== src/Db/Integrity.antt =====
-- The rule UNIQUE(app_platform_id, version_code) of db/migrations, as an invariant of the statements
-- that write releases.
use release_hub.Base.{
  ℕ, Bool, false, not, List, [], ◌∷◌, ◌++◌, map, ◌≡◌, sym, arith, eqb, eqb_iff, keep_if, any_of,
  All, All-append, inl, inr, Bool-cases, keep_if-append, append-nil, keep_if_comm, String,
}
use release_hub.Base.Int.{ℤ, pos}
use release_hub.Db.{Database, Release}
use release_hub.Db.Order.{Distinct, keep_if-Distinct}
use release_hub.Db.Releases.{
  code_of, on_platform, is_release, create_release, delete_release_row, set_play_status,
}

-- No platform has two releases of one version code.
abbrev pub HasUniqueCodes : Database → Type 0
HasUniqueCodes db = (id : ℕ) → Distinct code_of (keep_if (on_platform id) db.releases)

-- The key of an item is in none of the others.
abbrev Fresh : ℕ → List Release → Type 0
Fresh n = All (λ y. eqb (code_of y) n ≡ false)

Fresh-of_free :
    (id code : ℕ) (rs : List Release)
    → any_of (is_release id (pos code)) rs ≡ false
    → Fresh code (keep_if (on_platform id) rs)
unfolding keep_if any_of
Fresh-of_free id code [] free = tt
Fresh-of_free id code (y ∷ rs) free =
    let ih = Fresh-of_free id code rs (ground (arith, free)) in
    elim (Bool-cases (on_platform id y)) [
      | inl here ↦ rw here (ground (arith, free), ih)
      | inr elsewhere ↦ rw elsewhere ih
    ]

Distinct-append :
    (r : Release) (rs : List Release)
    → Fresh r.version_code rs
    → Distinct code_of rs
    → Distinct code_of (rs ++ r ∷ [])
Distinct-append r [] fresh h = (tt, tt)
Distinct-append r (y ∷ rs) (fy, fresh) (hy, h) =
    (All-append _ rs (r ∷ []) hy (ground arith, tt), Distinct-append r rs fresh h)

-- One more row, when none of the table is like it.
Distinct-new_row :
    (r : Release) (id : ℕ) (rs : List Release)
    → any_of (is_release r.app_platform_id (pos r.version_code)) rs ≡ false
    → Distinct code_of (keep_if (on_platform id) rs)
    → Distinct code_of (keep_if (on_platform id) (rs ++ r ∷ []))
unfolding keep_if
Distinct-new_row r id rs free h = elim (Bool-cases (on_platform id r)) [
  | inl here ↦
      rw (keep_if-append (on_platform id) rs (r ∷ []), here)
        (Distinct-append r (keep_if (on_platform id) rs)
          (rw (sym ((eqb_iff r.app_platform_id id).0 here))
            (Fresh-of_free r.app_platform_id r.version_code rs free))
          h)
  | inr elsewhere ↦
      rw
        (
          keep_if-append (on_platform id) rs (r ∷ []),
          elsewhere,
          append-nil (keep_if (on_platform id) rs),
        )
        h
]

-- An update that leaves platforms and codes alone.
module _ (f : Release → Release) (p : Release → Bool)
    (same_code : (r : Release) → code_of (f r) ≡ code_of r)
    (same_pass : (r : Release) → p (f r) ≡ p r) where
  Fresh-map : (n : ℕ) (rs : List Release) → Fresh n (keep_if p rs) → Fresh n (keep_if p (map f rs))
  unfolding keep_if
  Fresh-map n [] h = tt
  Fresh-map n (r ∷ rs) h = elim (Bool-cases (p r)) [
    | inl pass ↦
        let (hr, hs) = rw pass at h in
        rw (same_pass r, pass) (rw (same_code r) hr, Fresh-map n rs hs)
    | inr fail ↦ rw (same_pass r, fail) (Fresh-map n rs (rw fail at h))
  ]

  Distinct-map :
      (rs : List Release)
      → Distinct code_of (keep_if p rs)
      → Distinct code_of (keep_if p (map f rs))
  unfolding keep_if
  Distinct-map [] h = tt
  Distinct-map (r ∷ rs) h = elim (Bool-cases (p r)) [
    | inl pass ↦
        let (hr, hs) = rw pass at h in
        rw (same_pass r, pass) (rw (same_code r) (Fresh-map (code_of r) rs hr), Distinct-map rs hs)
    | inr fail ↦ rw (same_pass r, fail) (Distinct-map rs (rw fail at h))
  ]

pub create_release-HasUniqueCodes :
    (r : Release) (db : Database) → HasUniqueCodes db → HasUniqueCodes (create_release r db).1
unfolding create_release
create_release-HasUniqueCodes r db h =
    elim (Bool-cases (any_of (is_release r.app_platform_id (pos r.version_code)) db.releases)) [
      | inl taken ↦ rw taken h
      | inr free ↦ rw free (λ id. Distinct-new_row r id db.releases free (h id))
    ]

pub delete_release_row-HasUniqueCodes :
    (id : ℕ) (code : ℤ) (db : Database)
    → HasUniqueCodes db
    → HasUniqueCodes (delete_release_row id code db).1
unfolding delete_release_row
delete_release_row-HasUniqueCodes id code db h other =
    rw (keep_if_comm (on_platform other) (λ r. not (is_release id code r)) db.releases)
      (keep_if-Distinct code_of _ _ (h other))

pub set_play_status-HasUniqueCodes :
    (status error name : String) (id : ℕ) (code : ℤ) (db : Database)
    → HasUniqueCodes db
    → HasUniqueCodes (set_play_status status error name id code db).1
unfolding set_play_status
set_play_status-HasUniqueCodes status error name id code db h other =
    Distinct-map _ (on_platform other) (λ r. ground arith) (λ r. ground arith) db.releases (h other)
