-- ===== src/Invariant/Sound.antt =====
-- The rules that the schema and the handlers are to keep: unique version codes, slugs and platforms,
-- slugs that the pattern admits, and platforms that are android or ios.
use release_hub.Base.{
  ℕ, String, Bool, true, false, ◌||◌, ◌&&◌, ◌==◌, List, [], ◌∷◌, ◌++◌, map, ◌≡◌, refl, arith, eqb,
  any_of, All, All-append, ◌+◌, Bool-cases, inl, inr, if◌then◌else◌,
}
use release_hub.Base.Int.{ℤ, pos, negsuc}
use release_hub.Db.{Release, Session, Database, App, AppPlatform}
use release_hub.Db.Releases.{create_release, delete_release_row, set_play_status}
use release_hub.Db.Apps.{
  create_app, create_app_platform, new_platform, update_platform, set_signing_config,
  set_play_account_for_platform, set_prune_keep,
}
use release_hub.Db.Config.{
  set_config, create_api_token, touch_api_token, create_session, delete_session,
  create_play_account, delete_play_account, delete_play_account_by_int64, disable_play_on,
}
use release_hub.Db.Integrity.{
  HasUniqueCodes, create_release-HasUniqueCodes, delete_release_row-HasUniqueCodes,
  set_play_status-HasUniqueCodes,
}
use release_hub.Apps.{is_slug}
use release_hub.Invariant.{IsInvariant}

module _ {A : Type 0} (same : A → A → Bool) where
  -- No item is the same as a later one.
  abbrev pub Apart : List A → Type 0
  Apart [] = Unit
  Apart (x ∷ xs) = All (λ y. same x y ≡ false) xs × Apart xs

module _ {A : Type 0} (same : A → A → Bool) where
  any_of-All :
      (y : A) (xs : List A) → any_of (λ x. same x y) xs ≡ false → All (λ x. same x y ≡ false) xs
  unfolding any_of
  any_of-All y [] h = tt
  any_of-All y (x ∷ xs) h = (ground (arith, h), any_of-All y xs (ground (arith, h)))

  Apart-append :
      (y : A) (xs : List A)
      → All (λ x. same x y ≡ false) xs
      → Apart same xs
      → Apart same (xs ++ y ∷ [])
  Apart-append y [] free h = (tt, tt)
  Apart-append y (x ∷ xs) (fx, free) (hx, h) =
      (All-append _ xs (y ∷ []) hx (fx, tt), Apart-append y xs free h)

  -- an update that leaves what is compared
  module _ (f : A → A) (kept : (x y : A) → same (f x) (f y) ≡ same x y) where
    All-updated :
        (x : A) (ys : List A)
        → All (λ y. same x y ≡ false) ys
        → All (λ y. same (f x) y ≡ false) (map f ys)
    All-updated x [] h = tt
    All-updated x (y ∷ ys) (hy, h) = (rw (kept x y) hy, All-updated x ys h)

    Apart-map : (xs : List A) → Apart same xs → Apart same (map f xs)
    Apart-map [] h = tt
    Apart-map (x ∷ xs) (hx, h) = (All-updated x xs hx, Apart-map xs h)

All-map :
    {A : Type 0} (P : A → Type 0) (f : A → A) (kept : (x : A) → P x → P (f x)) (xs : List A)
    → All P xs
    → All P (map f xs)
All-map P f kept [] h = tt
All-map P f kept (x ∷ xs) (hx, h) = (kept x hx, All-map P f kept xs h)

abbrev pub same_slug : App → App → Bool
same_slug a b = a.slug == b.slug

abbrev pub same_platform : AppPlatform → AppPlatform → Bool
same_platform p q = eqb p.app_id q.app_id && p.platform == q.platform

abbrev pub is_known : AppPlatform → Bool
is_known p = p.platform == "android" || p.platform == "ios"

pub record IsSound (db : Database) : Type 0 where
  pub codes : HasUniqueCodes db
  pub slugs : Apart same_slug db.apps
  pub variants : Apart same_platform db.platforms
  pub valid : All (λ a. is_slug a.slug ≡ true) db.apps
  pub known : All (λ p. is_known p ≡ true) db.platforms

abbrev Unmoved : (AppPlatform → AppPlatform) → Type 0
Unmoved f = (p : AppPlatform) → ((f p).app_id ≡ p.app_id) × ((f p).platform ≡ p.platform)

-- Platforms that are changed in other columns.
IsSound-map :
    (f : AppPlatform → AppPlatform) (db db' : Database)
    → Unmoved f
    → db'.platforms ≡ map f db.platforms
    → db'.apps ≡ db.apps
    → db'.releases ≡ db.releases
    → IsSound db
    → IsSound db'
IsSound-map f db db' unmoved ep ea er h = record {
  codes = rw er h.codes;
  slugs = rw ea h.slugs;
  variants = rw ep (Apart-map same_platform f kept db.platforms h.variants);
  valid = rw ea h.valid;
  known = rw ep (All-map _ f (λ p e. rw ((unmoved p).1) e) db.platforms h.known);
}
  where
    kept : (p q : AppPlatform) → same_platform (f p) (f q) ≡ same_platform p q
    kept p q = rw ((unmoved p).0, (unmoved p).1, (unmoved q).0, (unmoved q).1) refl

-- Other tables.
IsSound-same :
    (db db' : Database)
    → db'.platforms ≡ db.platforms
    → db'.apps ≡ db.apps
    → db'.releases ≡ db.releases
    → IsSound db
    → IsSound db'
IsSound-same db db' ep ea er h = record {
  codes = rw er h.codes;
  slugs = rw ea h.slugs;
  variants = rw ep h.variants;
  valid = rw ea h.valid;
  known = rw ep h.known;
}

-- an update of some rows
Unmoved-if :
    (b : AppPlatform → Bool) (f : AppPlatform → AppPlatform)
    → Unmoved f
    → Unmoved (λ p. if b p then f p else p)
Unmoved-if b f unmoved p = elim (Bool-cases (b p)) [
  | inl here ↦ rw here (unmoved p)
  | inr elsewhere ↦ rw elsewhere (refl, refl)
]

update_platform-IsSound :
    (id : ℕ) (f : AppPlatform → AppPlatform) (db : Database)
    → Unmoved f
    → IsSound db
    → IsSound (update_platform id f db)
update_platform-IsSound id f db unmoved h =
    IsSound-map _ db _ (Unmoved-if (λ p. eqb p.id id) f unmoved) refl refl refl h

create_app-IsSound :
    (slug : String) (db : Database)
    → is_slug slug ≡ true
    → IsSound db
    → IsSound (create_app slug db).1
unfolding create_app
create_app-IsSound slug db ok_slug h = elim (Bool-cases (any_of (λ a. a.slug == slug) db.apps)) [
  | inl taken ↦ rw taken h
  | inr free ↦ rw free (record {
    codes = h.codes;
    slugs =
        Apart-append same_slug _ db.apps
          (any_of-All same_slug (record { id = db.app_seq + 1; slug = slug }) db.apps free) h.slugs;
    variants = h.variants;
    valid = All-append _ db.apps _ h.valid (ok_slug, tt);
    known = h.known;
  })
]

create_app_platform-IsSound :
    (app_id : ℕ) (platform pkg : String) (db : Database)
    → (platform == "android" || platform == "ios") ≡ true
    → IsSound db
    → IsSound (create_app_platform app_id platform pkg db).1
unfolding create_app_platform
create_app_platform-IsSound app_id platform pkg db known h =
    elim (Bool-cases (any_of (λ p. eqb p.app_id app_id && p.platform == platform) db.platforms)) [
      | inl taken ↦ rw taken h
      | inr free ↦ rw free (elim (Bool-cases (any_of (λ a. eqb a.id app_id) db.apps)) [
        | inl there ↦ rw there (record {
          codes = h.codes;
          slugs = h.slugs;
          variants =
              Apart-append same_platform _ db.platforms
                (any_of-All same_platform (new_platform (db.platform_seq + 1) app_id platform pkg)
                  db.platforms free)
                h.variants;
          valid = h.valid;
          known = All-append _ db.platforms _ h.known (known, tt);
        })
        | inr missing ↦ rw missing h
      ])
    ]

create_release-apps : (rel : Release) (db : Database) → (create_release rel db).1.apps ≡ db.apps
unfolding create_release
create_release-apps rel db = ground arith

create_release-platforms :
    (rel : Release) (db : Database) → (create_release rel db).1.platforms ≡ db.platforms
unfolding create_release
create_release-platforms rel db = ground arith

create_release-IsSound :
    (rel : Release) (db : Database) → IsSound db → IsSound (create_release rel db).1
create_release-IsSound rel db h = record {
  codes = create_release-HasUniqueCodes rel db h.codes;
  slugs = rw (create_release-apps rel db) h.slugs;
  variants = rw (create_release-platforms rel db) h.variants;
  valid = rw (create_release-apps rel db) h.valid;
  known = rw (create_release-platforms rel db) h.known;
}

delete_play_account-IsSound :
    (id : ℕ) (db : Database) → IsSound db → IsSound (delete_play_account id db).1
unfolding delete_play_account
delete_play_account-IsSound id db h =
    IsSound-map _ db _ (Unmoved-if _ _ (λ p. (refl, refl))) refl refl refl h

disable_play_on-IsSound : (id : ℤ) (db : Database) → IsSound db → IsSound (disable_play_on id db).1
unfolding disable_play_on
disable_play_on-IsSound (negsuc n) db h = h
disable_play_on-IsSound (pos id) db h =
    IsSound-map _ db _ (Unmoved-if _ _ (λ p. (refl, refl))) refl refl refl h

delete_play_account_by_int64-IsSound :
    (id : ℤ) (db : Database) → IsSound db → IsSound (delete_play_account_by_int64 id db).1
unfolding delete_play_account_by_int64
delete_play_account_by_int64-IsSound (negsuc n) db h = h
delete_play_account_by_int64-IsSound (pos id) db h = delete_play_account-IsSound id db h

create_api_token-IsSound :
    (name hash : String) (db : Database) → IsSound db → IsSound (create_api_token name hash db).1
unfolding create_api_token
create_api_token-IsSound name hash db h =
    elim (Bool-cases (any_of (λ t. t.token_hash == hash) db.api_tokens)) [
      | inl taken ↦ rw taken h
      | inr free ↦ rw free (IsSound-same db _ refl refl refl h)
    ]

create_session-IsSound :
    (s : Session) (db : Database) → IsSound db → IsSound (create_session s db).1
unfolding create_session
create_session-IsSound s db h =
    elim (Bool-cases (any_of (λ t. t.token_hash == s.token_hash) db.sessions)) [
      | inl taken ↦ rw taken h
      | inr free ↦ rw free (IsSound-same db _ refl refl refl h)
    ]

-- Every statement of the program keeps the rules.
pub IsSound-IsInvariant : IsInvariant IsSound
unfolding delete_release_row set_play_status set_signing_config set_play_account_for_platform
    set_prune_keep set_config touch_api_token delete_session create_play_account
IsSound-IsInvariant = record {
  release_created = create_release-IsSound;
  release_deleted = λ id code db h. record {
    codes = delete_release_row-HasUniqueCodes id code db h.codes;
    slugs = h.slugs;
    variants = h.variants;
    valid = h.valid;
    known = h.known;
  };
  play_settled = λ status error name id code db h. record {
    codes = set_play_status-HasUniqueCodes status error name id code db h.codes;
    slugs = h.slugs;
    variants = h.variants;
    valid = h.valid;
    known = h.known;
  };
  app_created = create_app-IsSound;
  platform_created = create_app_platform-IsSound;
  signing_set =
      λ keystore config sum id db h. update_platform-IsSound id _ db (λ p. (refl, refl)) h;
  account_linked = λ enabled account id db h. update_platform-IsSound id _ db (λ p. (refl, refl)) h;
  keep_set = λ keep id db h. update_platform-IsSound id _ db (λ p. (refl, refl)) h;
  config_set = λ key value db h. IsSound-same db _ refl refl refl h;
  token_created = create_api_token-IsSound;
  token_touched = λ now hash db h. IsSound-same db _ refl refl refl h;
  session_created = create_session-IsSound;
  session_deleted = λ hash db h. IsSound-same db _ refl refl refl h;
  account_created = λ label credentials db h. IsSound-same db _ refl refl refl h;
  account_deleted = delete_play_account-IsSound;
  account_removed = delete_play_account_by_int64-IsSound;
  play_disabled = disable_play_on-IsSound;
}
