-- ===== src/Retention/Deletes.antt =====
-- What a delete does to the listings, when no call fails.
use release_hub.Base.{
  ◌≢◌, ℕ, String, List, [], ◌∷◌, none, Bool, true, false, not, ◌≡◌, refl, ap, sym, ◌∙◌, arith, inl,
  inr, eqb, keep_if, find_first, Option-cases, Bool-cases,
}
use release_hub.Base.Int.{ℤ, pos}
use release_hub.Result.{Result, ok}
use release_hub.Db.{AppPlatform, Release, Database}
use release_hub.Db.Order.{sort_desc, keep_if-sort_desc}
use release_hub.Db.Releases.{
  code_of, on_channel, is_release, release_by_app_and_code, delete_release_row,
}
use release_hub.Storage.{Storage}
use release_hub.World.{continue, World, Outcome, M, ◌>>=◌}
use release_hub.World.Calls.{fine_call, NoFaults}
use release_hub.Storage.Untouched.{after_delete_file}
use release_hub.Retention.{delete_release}

-- The rows that a delete leaves.
abbrev pub others : ℕ → ℤ → List Release → List Release
others id code = keep_if (λ r. not (is_release id code r))

-- Deleting a row that is not there changes nothing.
others-absent :
    (id : ℕ) (code : ℤ) (rs : List Release)
    → find_first (is_release id code) rs ≡ none
    → others id code rs ≡ rs
unfolding find_first keep_if
others-absent id code [] h = refl
others-absent id code (r ∷ rs) h = elim (Bool-cases (is_release id code r)) [
  | inl here ↦ cc (rw here at h)
  | inr not_here ↦ rw not_here (ap (◌∷◌ r) (others-absent id code rs (rw not_here at h)))
]

-- The rows of a listing before they are ordered.
listed-others :
    (id code : ℕ) (channel : String) (rs : List Release)
    → keep_if (on_channel id channel) (others id (pos code) rs)
      ≡ keep_if (λ r. not (eqb r.version_code code)) (keep_if (on_channel id channel) rs)
unfolding keep_if
listed-others id code channel [] = refl
listed-others id code channel (r ∷ rs) = ground (arith, listed-others id code channel rs)

-- On its own platform, a delete takes the row with that code out of every channel's listing.
pub list-others :
    (id code : ℕ) (channel : String) (rs : List Release)
    → sort_desc code_of (keep_if (on_channel id channel) (others id (pos code) rs))
      ≡ keep_if
          (λ r. not (eqb r.version_code code))
          (sort_desc code_of (keep_if (on_channel id channel) rs))
list-others id code channel rs =
    ap (sort_desc code_of) (listed-others id code channel rs)
    ∙ sym (
        keep_if-sort_desc code_of (λ r. not (eqb r.version_code code))
          (keep_if (on_channel id channel) rs))

-- On another platform it changes no listing.
pub list-others_ne :
    (id other : ℕ) (code : ℤ) (channel : String) (rs : List Release)
    → other ≢ id
    → keep_if (on_channel other channel) (others id code rs) ≡ keep_if (on_channel other channel) rs
unfolding keep_if
list-others_ne id other code channel [] h = refl
list-others_ne id other code channel (r ∷ rs) h =
    ground (arith, list-others_ne id other code channel rs h)

abbrev pub after_delete_db : ℕ → ℤ → Database → Database
after_delete_db id code db = record db { releases = others id code db.releases }

module _ {B : Type 0} (R : Outcome B × World → Type 0) (st : Storage) (plat : AppPlatform)
    (slug : String) where
  -- What follows a delete, when no call fails: the row is gone, or there was none.
  pub after_delete :
      (code : ℤ) (k : Result Bool → M B) (w : World)
      → NoFaults w
      → ((b : Bool) (w' : World)
          → w'.db ≡ after_delete_db plat.id code w.db
          → NoFaults w'
          → R (k (ok b) w'))
      → R ((delete_release st plat slug code >>= k) w)
  unfolding delete_release delete_release_row release_by_app_and_code
  after_delete code k w h next =
      fine_call (λ (o, w'). R (continue o k w')) _ _ _ h
        (elim (Option-cases (find_first (is_release plat.id code) w.db.releases)) [
          | inl absent ↦ rw absent (
              next false _
                (ap (λ rs. record w.db { releases = rs })
                  (sym (others-absent plat.id code w.db.releases absent)))
                h)
          | inr (rel, found) ↦ rw found (
              fine_call (λ (o, w'). R (continue o k w')) _ _ _ h
                (after_delete_file (λ (o, w'). R (continue o k w')) st _ _ _ h
                  (λ r w' e g. next true w' e g)))
        ])
