-- ===== src/Storage/Untouched.antt =====
-- A delete in the store touches nothing but the store.
use release_hub.Base.{String, ◌≡◌, refl, arith}
use release_hub.Result.{Result}
use release_hub.World.{World, Outcome, M, ◌>>=◌}
use release_hub.World.Calls.{NoFaults, fine_call}
use release_hub.Storage.{Storage, local, s3, local_path, remove_at, delete_file}

pub remove_at-db : (path : String) (w : World) → (remove_at path w).1.db ≡ w.db
remove_at-db path w = ground arith

remove_at-fault : (path : String) (w : World) → (remove_at path w).1.fault ≡ w.fault
remove_at-fault path w = ground arith

module _ {B : Type 0} (R : Outcome B × World → Type 0) where
  -- What follows a delete in the store, when no call fails.
  pub after_delete_file :
      (st : Storage) (key : String) (k : Result (Unit {0}) → M B) (w : World)
      → NoFaults w
      → ((r : Result (Unit {0})) (w' : World) → w'.db ≡ w.db → NoFaults w' → R (k r w'))
      → R ((delete_file st key >>= k) w)
  unfolding delete_file
  after_delete_file (local l) key k w h next = fine_call R _ _ _ h (
      next _ _ (remove_at-db (local_path l key) w)
        (λ n. rw (remove_at-fault (local_path l key) w) (h n)))
  after_delete_file (s3 s) key k w h next = fine_call R _ _ _ h (next _ _ refl h)
