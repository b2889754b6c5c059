-- ===== src/Db/Releases/Greatest.antt =====
-- The greatest version code of a platform.
use release_hub.Base.{ℕ, ◌<◌, List, [], ◌∷◌, All, keep_if, arith}
use release_hub.Db.{Database, Release}
use release_hub.Db.Releases.{code_of, on_platform, max_of, max_version_code}

All-max_of : (n : ℕ) (rs : List Release) → max_of rs < n → All (λ r. code_of r < n) rs
unfolding max_of
All-max_of n [] h = tt
All-max_of n (r ∷ rs) h = (ground arith, All-max_of n rs (ground arith))

-- A code above the greatest is above every code of the platform.
pub All-max_version_code :
    (id n : ℕ) (db : Database)
    → max_version_code id db < n
    → All (λ r. code_of r < n) (keep_if (on_platform id) db.releases)
unfolding max_version_code
All-max_version_code id n db h = All-max_of n (keep_if (on_platform id) db.releases) h
