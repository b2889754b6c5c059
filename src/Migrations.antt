-- ===== src/Migrations.antt =====
-- db/db.go: the migrations, over the driver and the embedded files.
pub mod Again
use release_hub.Base.{
  ℕ, ◌+◌, ◌*◌, ◌-◌, String, Char, code, Bool, true, false, not, ◌&&◌, Option, none, some, List, [],
  ◌∷◌, eqb, leb, if◌then◌else◌, any_of, keep_if, map, ◌+++◌, ◌≡◌, refl,
}
use release_hub.Text.{ends_with}
use release_hub.Db.Apps.{sort_by}
use release_hub.Result.{GoError, Result, ok, err}
use release_hub.World.{behind}

-- `fs.DirEntry`
pub record DirEntry : Type 0 where
  pub name : String
  pub is_dir : Bool

-- The directory, the files, whether there is a table `migrations`, the numbers in it (the query
-- and a row that is scanned may each fail), and the execution of a text of SQL.
pub record Driver (S : Type 0) : Type 0 where
  pub read_dir : Result (List DirEntry)
  pub read_file : String → Result String
  pub has_table : S → Result Bool
  pub recorded : S → Result (Result (List ℕ))
  pub exec : String → S → Result (Unit {0}) × S

is_digit : Char → Bool
is_digit c = leb b'0' (code c) && leb (code c) b'9'

one_line : String → Bool
one_line String.[] = true
one_line (String.◌∷◌ c s) = not (eqb (code c) 10) && one_line s

abbrev value_of : Char → ℕ
value_of c = code c - b'0'

numbered : Char → Char → Char → Char → String → Option ℕ
numbered a b c dash s =
    if is_digit a
      && is_digit b
      && is_digit c
      && eqb (code dash) b'-'
      && ends_with s ".sql"
      && one_line s
    then some (value_of a * 100 + value_of b * 10 + value_of c)
    else none

-- The number in a name that matches `^(\d{3})-.*\.sql$`.
unfoldable pub number_of : String → Option ℕ
unfolding is_digit one_line numbered
number_of (String.◌∷◌ a (String.◌∷◌ b (String.◌∷◌ c (String.◌∷◌ dash s)))) = numbered a b c dash s
number_of _ = none

numbers :
    (number_of "012-signing.sql" ≡ some 12)
    × (number_of "12-a.sql" ≡ none)
    × (number_of "001-a.txt" ≡ none)
unfolding number_of ends_with
numbers = (refl, refl, refl)

is_migration : DirEntry → Bool
is_migration e = elim (number_of e.name) [ some n ↦ not e.is_dir | none ↦ false ]

-- the names in order
unfoldable pub migration_files : List DirEntry → List String
unfolding is_migration
migration_files entries = sort_by (λ name. name) (map (λ e. e.name) (keep_if is_migration entries))

unfoldable pub is_recorded : ℕ → List ℕ → Bool
is_recorded n executed = any_of (λ m. eqb m n) executed

-- A file that is no migration is never due.
pub is_due : Option ℕ → List ℕ → Bool
is_due none executed = false
is_due (some n) executed = not (is_recorded n executed)

abbrev wrapped : {A : Type 0} → String → Result A → Result A
wrapped text (err e) = err (behind text e)
wrapped text (ok a) = ok a

module _ {S : Type 0} (d : Driver S) where
  executed_text : String → S → Result String → Result (Unit {0}) × S
  executed_text name s (err e) = (err (behind ("read " +++ (name +++ ": ")) e), s)
  executed_text name s (ok content) =
      let (r, s') = d.exec content s in
      elim r [ ok _ ↦ (ok tt, s') | err e ↦ (err (behind ("exec " +++ (name +++ ": ")) e), s') ]

  -- `executeMigration`
  unfoldable pub execute_migration : String → S → Result (Unit {0}) × S
  unfolding executed_text
  execute_migration name s = executed_text name s (d.read_file name)

  -- the loop stops at the first failure
  and_on : String → Result (Unit {0}) × S → (S → Result (Unit {0}) × S) → Result (Unit {0}) × S
  and_on name (err e, s) rest = (err (behind ("execute " +++ (name +++ ": ")) e), s)
  and_on name (ok _, s) rest = rest s

  advance : Bool → String → (S → Result (Unit {0}) × S) → S → Result (Unit {0}) × S
  advance true name rest s = and_on name (execute_migration name s) rest
  advance false name rest s = rest s

  apply_all : List String → List ℕ → S → Result (Unit {0}) × S
  apply_all [] executed s = (ok tt, s)
  apply_all (name ∷ names) executed s =
      advance (is_due (number_of name) executed) name (apply_all names executed) s

  scanned : Result (Result (List ℕ)) → Result (List ℕ)
  scanned (err e) = err e
  scanned (ok rows) = wrapped "scan migration number: " rows

  numbers_in : S → Result Bool → Result (List ℕ)
  numbers_in s (err e) = err (behind "check migrations table: " e)
  numbers_in s (ok false) = ok []
  numbers_in s (ok true) = scanned (wrapped "query executed migrations: " (d.recorded s))

  -- the numbers that count as executed
  unfoldable pub executed : S → Result (List ℕ)
  unfolding scanned numbers_in
  executed s = numbers_in s (d.has_table s)

  with_executed : List DirEntry → S → Result (List ℕ) → Result (Unit {0}) × S
  with_executed entries s (err e) = (err e, s)
  with_executed entries s (ok ns) = apply_all (migration_files entries) ns s

  with_entries : S → Result (List DirEntry) → Result (Unit {0}) × S
  with_entries s (err e) = (err (behind "read migrations dir: " e), s)
  with_entries s (ok entries) = with_executed entries s (executed s)

  -- `RunMigrations`
  unfoldable pub run_migrations : S → Result (Unit {0}) × S
  unfolding is_recorded and_on is_due advance apply_all with_executed with_entries
  run_migrations s = with_entries s d.read_dir
