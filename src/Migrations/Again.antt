-- ===== src/Migrations/Again.antt =====
-- A second run of the migrations.
use release_hub.Base.{
  ℕ, String, Bool, true, false, not, Option, none, some, List, [], ◌∷◌, ◌≡◌, refl, sym, ◌∙◌, ap,
  inl, inr, Bool-cases, All,
}
use release_hub.Result.{Result, ok, err}
use release_hub.Migrations.{
  DirEntry, Driver, number_of, is_recorded, migration_files, execute_migration, and_on, advance,
  is_due, apply_all, executed, with_executed, with_entries, run_migrations,
}

-- The numbers of the second list are among the first's.
abbrev pub Includes : List ℕ → List ℕ → Type 0
Includes ns ms = (n : ℕ) → is_recorded n ms ≡ true → is_recorded n ns ≡ true

module _ {S : Type 0} (d : Driver S) where
  -- A migration that is executed records its number, and none is forgotten.
  pub record Records (s s' : S) (n : ℕ) : Type 0 where
    pub later : List ℕ
    pub reads : executed d s' ≡ ok later
    pub has : is_recorded n later ≡ true
    pub includes : (before : List ℕ) → executed d s ≡ ok before → Includes later before

module _ {S : Type 0} (d : Driver S)
    (records : (name : String) (n : ℕ) (s : S)
      → number_of name ≡ some n
      → (execute_migration d name s).0 ≡ ok tt
      → Records d s (execute_migration d name s).1 n) where
  abbrev Done : List ℕ → String → Type 0
  Done ns name = (n : ℕ) → number_of name ≡ some n → is_recorded n ns ≡ true

  -- what a run leaves behind it
  record Leaves (names : List String) (ns : List ℕ) (s' : S) : Type 0 where
    after : List ℕ
    read : executed d s' ≡ ok after
    more : Includes after ns
    all : All (Done after) names

  is_due-Done :
      (o : Option ℕ) (ns : List ℕ)
      → ((n : ℕ) → o ≡ some n → is_recorded n ns ≡ true)
      → is_due o ns ≡ false
  unfolding is_due
  is_due-Done none ns h = refl
  is_due-Done (some n) ns h = rw (h n refl) refl

  -- nothing is due where all is recorded
  apply_all-Done :
      (names : List String) (ns : List ℕ) (s : S)
      → All (Done ns) names
      → apply_all d names ns s ≡ (ok tt, s)
  unfolding apply_all advance
  apply_all-Done [] ns s h = refl
  apply_all-Done (name ∷ names) ns s (hn, h) =
      rw (is_due-Done (number_of name) ns hn) (apply_all-Done names ns s h)

  Leaves-cons :
      (name : String) (names : List String) (ns before : List ℕ) (s' : S)
      → Includes before ns
      → Done before name
      → Leaves names before s'
      → Leaves (name ∷ names) ns s'
  Leaves-cons name names ns before s' more done l = record {
    after = l.after;
    read = l.read;
    more = λ n e. l.more n (more n e);
    all = (λ n e. l.more n (done n e), l.all);
  }

  same_number : {n m : ℕ} → some n ≡ some m → n ≡ m
  same_number h = cc

  not-false : (b : Bool) → not b ≡ false → b ≡ true
  not-false true h = refl
  not-false false h = cc

  is_due-false :
      (o : Option ℕ) (ns : List ℕ)
      → is_due o ns ≡ false
      → (n : ℕ) → o ≡ some n
      → is_recorded n ns ≡ true
  unfolding is_due
  is_due-false none ns h n e = cc
  is_due-false (some m) ns h n e = rw (sym (same_number e)) (not-false (is_recorded m ns) h)

  is_due-true : (o : Option ℕ) (ns : List ℕ) → is_due o ns ≡ true → (n : ℕ) × (o ≡ some n)
  unfolding is_due
  is_due-true none ns h = cc
  is_due-true (some n) ns h = (n, refl)

  and_on-ok :
      (name : String) (p : Result (Unit {0}) × S) (rest : S → Result (Unit {0}) × S)
      → (and_on d name p rest).0 ≡ ok tt
      → (p.0 ≡ ok tt) × (and_on d name p rest ≡ rest p.1)
  unfolding and_on
  and_on-ok name (err e, s) rest h = cc
  and_on-ok name (ok _, s) rest h = (refl, refl)

  apply_all-Leaves :
      (names : List String) (ns before : List ℕ) (s : S)
      → executed d s ≡ ok before
      → Includes before ns
      → (apply_all d names ns s).0 ≡ ok tt
      → Leaves names before (apply_all d names ns s).1
  unfolding apply_all advance
  apply_all-Leaves [] ns before s reads more h = record {
    after = before;
    read = reads;
    more = λ n e. e;
    all = tt;
  }
  apply_all-Leaves (name ∷ names) ns before s reads more h =
      elim (Bool-cases (is_due (number_of name) ns)) [
        | inl due ↦
            let (n, numbered) = is_due-true (number_of name) ns due in
            let ran = execute_migration d name s in
            let rest = apply_all d names ns in
            let done = ap (λ b. (advance d b name rest s).0) (sym due) ∙ h in
            let (went, on) = and_on-ok name ran rest done in
            let r = records name n s numbered went in
            let l =
              apply_all-Leaves names ns r.later ran.1 r.reads
                (λ m e. r.includes before reads m (more m e)) (ap (λ p. p.0) (sym on) ∙ done) in
            rw (due, on)
              (Leaves-cons name names before r.later (rest ran.1).1 (r.includes before reads)
                (λ m e. rw (same_number (sym e ∙ numbered)) r.has) l)
        | inr skipped ↦
            let l =
              apply_all-Leaves names ns before s reads more
                (ap (λ b. (advance d b name (apply_all d names ns) s).0) (sym skipped) ∙ h) in
            rw skipped (
              Leaves-cons name names before before (apply_all d names ns s).1 (λ n e. e)
                (λ n e. more n (is_due-false (number_of name) ns skipped n e)) l)
      ]

  with_executed-again :
      (entries : List DirEntry) (s : S) (r : Result (List ℕ))
      → executed d s ≡ r
      → (with_executed d entries s r).0 ≡ ok tt
      → (e : List ℕ) × (executed d (with_executed d entries s r).1 ≡ ok e)
        × (apply_all d (migration_files entries) e (with_executed d entries s r).1
            ≡ (ok tt, (with_executed d entries s r).1))
  unfolding with_executed
  with_executed-again entries s (err x) e h = cc
  with_executed-again entries s (ok ns) e h =
      let l = apply_all-Leaves (migration_files entries) ns ns s e (λ n e'. e') h in
      (l.after, l.read, apply_all-Done (migration_files entries) l.after _ l.all)

  with_entries-again :
      (s : S) (r : Result (List DirEntry))
      → (with_entries d s r).0 ≡ ok tt
      → with_entries d (with_entries d s r).1 r ≡ (ok tt, (with_entries d s r).1)
  unfolding with_entries with_executed
  with_entries-again s (err x) h = cc
  with_entries-again s (ok entries) h =
      let (e, read, same) = with_executed-again entries s (executed d s) refl h in rw read same

  -- A second run of the migrations after one that succeeded executes nothing: it succeeds and leaves
  -- the database as it is. What is assumed of each migration is that, when it is executed, its number
  -- is recorded and no recorded number is lost.
  pub run_migrations-again :
      (s : S)
      → (run_migrations d s).0 ≡ ok tt
      → run_migrations d (run_migrations d s).1 ≡ (ok tt, (run_migrations d s).1)
  unfolding run_migrations
  run_migrations-again s h = with_entries-again s d.read_dir h
