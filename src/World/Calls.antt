-- ===== src/World/Calls.antt =====
-- Laws of calls: invariants that every action keeps, whatever fails, and calls that do not fail.
use mathlib.Core.Path.{subst}
use release_hub.Base.{
  String, ℕ, suc, none, ◌≡◌, refl, ap, inl, inr, Option-cases, Bool, true, false, if◌then◌else◌,
}
use release_hub.Result.{GoError, failure, Result, ok, err}
use release_hub.World.{
  World, Outcome, done, answered, panicked, M, continue, ◌>>=◌, pure, answer, panic, expect,
  require, Response, call, attempt, or_return,
}

-- How an action ends: `P` holds if it is done or panics, and `E` of an answer.
abbrev pub Ends :
    {A : Type 0} → (World → Type 0) → (Response → World → Type 0) → Outcome A × World → Type 0
Ends P E (done a, w) = P w
Ends P E (answered r, w) = E r w
Ends P E (panicked, w) = P w

-- From `P`, the action `m` ends in `Q` or with an answer in `E`, whatever fails.
pub record Keeps {A : Type 0} (P Q : World → Type 0) (E : Response → World → Type 0) (m : M A)
    : Type 0 where
  pub at : (w : World) → P w → Ends Q E (m w)

module _ {P : World → Type 0} {E : Response → World → Type 0} where
  pub Keeps-pure : {A : Type 0} (a : A) → Keeps P P E (pure a)
  Keeps-pure a = record { at = λ w h. h }

  pub Keeps-answer :
      {A : Type 0} (r : Response) → ((w : World) → P w → E r w) → Keeps {A = A} P P E (answer r)
  Keeps-answer r f = record { at = f }

  pub Keeps-panic : {A : Type 0} → Keeps {A = A} P P E panic
  Keeps-panic = record { at = λ w h. h }

  pub Keeps-expect :
      {A : Type 0} (f : GoError → Response) (r : Result A)
      → ((e : GoError) (w : World) → P w → E (f e) w)
      → Keeps P P E (expect f r)
  Keeps-expect f (ok a) g = record { at = λ w h. h }
  Keeps-expect f (err e) g = record { at = g e }

  pub Keeps-require :
      (b : Bool) (r : Response) → ((w : World) → P w → E r w) → Keeps P P E (require b r)
  Keeps-require true r f = record { at = λ w h. h }
  Keeps-require false r f = record { at = f }

  -- a call keeps what its effect and the passing of a call keep
  pub Keeps-call :
      {A : Type 0} (f : World → Result A × World)
      → ((w : World) → P w → P (record (f w).1 { tick = suc w.tick }))
      → ((w : World) → P w → P (record w { tick = suc w.tick }))
      → Keeps P P E (call f)
  unfolding call
  Keeps-call f kf ks = record { at = go }
    where
      go : (w : World) → P w → Ends P E (call f w)
      go w h = elim (Option-cases (w.fault w.tick)) [
        | inl fine ↦ rw (fine, call) (kf w h)
        | inr (text, failed) ↦ rw (failed, call) (ks w h)
      ]

module _ {A B : Type 0} {Q S : World → Type 0} {E : Response → World → Type 0} where
  Keeps-continue :
      (o : Outcome A) (f : A → M B) (w : World)
      → ((w : World) → Q w → S w)
      → ((a : A) → Keeps Q S E (f a))
      → Ends Q E (o, w)
      → Ends S E (continue o f w)
  Keeps-continue (done a) f w qs kf h = (kf a).at w h
  Keeps-continue (answered r) f w qs kf h = h
  Keeps-continue panicked f w qs kf h = qs w h

module _ {A B : Type 0} {P Q S : World → Type 0} {E : Response → World → Type 0} where
  -- one action and then another, which may end in a weaker predicate
  pub Keeps-then :
      (m : M A) (f : A → M B)
      → ((w : World) → Q w → S w)
      → Keeps P Q E m
      → ((a : A) → Keeps Q S E (f a))
      → Keeps P S E (m >>= f)
  Keeps-then m f qs km kf = record {
    at = λ w h. let (o, w') = m w in Keeps-continue o f w' qs kf (km.at w h);
  }

module _ {P : World → Type 0} {E : Response → World → Type 0} where
  pub Keeps-bind :
      {A B : Type 0} (m : M A) (f : A → M B)
      → Keeps P P E m
      → ((a : A) → Keeps P P E (f a))
      → Keeps P P E (m >>= f)
  Keeps-bind m f km kf = Keeps-then m f (λ w h. h) km kf

  pub Keeps-or_return :
      {A B : Type 0} (wrapped : GoError → GoError) (r : Result A) (f : A → M (Result B))
      → ((a : A) → Keeps P P E (f a))
      → Keeps P P E (or_return wrapped r f)
  Keeps-or_return wrapped (ok a) f kf = kf a
  Keeps-or_return wrapped (err e) f kf = Keeps-pure (err (wrapped e))

  pub Keeps-attempt :
      {A B : Type 0} (m : M (Result A)) (wrapped : GoError → GoError) (f : A → M (Result B))
      → Keeps P P E m
      → ((a : A) → Keeps P P E (f a))
      → Keeps P P E (attempt m wrapped f)
  Keeps-attempt m wrapped f km kf = Keeps-bind m _ km (λ r. Keeps-or_return wrapped r f kf)

  pub Keeps-if :
      {A : Type 0} (b : Bool) (m n : M A)
      → Keeps P P E m
      → Keeps P P E n
      → Keeps P P E (if b then m else n)
  Keeps-if true m n km kn = km
  Keeps-if false m n km kn = kn

answer_of : {A : Type 0} → Response → Outcome A → Response
answer_of r (answered q) = q
answer_of r _ = r

-- what holds of an action that answered
pub Ends-answered :
    {A : Type 0} (P : World → Type 0) (E : Response → World → Type 0) (m : Outcome A × World)
    (r : Response)
    → m.0 ≡ answered r
    → Ends P E m
    → E r m.1
unfolding answer_of
Ends-answered P E (done a, w) r e h = absurd (cc e)
Ends-answered P E (answered q, w) r e h = subst (λ p. E p w) (ap (answer_of r) e) h
Ends-answered P E (panicked, w) r e h = absurd (cc e)

-- an invariant of every way to end
pub Ends-kept :
    {A : Type 0} (P : World → Type 0) (m : Outcome A × World) → Ends P (λ r. P) m → P m.1
Ends-kept P (done a, w) h = h
Ends-kept P (answered r, w) h = h
Ends-kept P (panicked, w) h = h

pub Keeps-weaken :
    {A : Type 0} {P P' Q : World → Type 0} {E : Response → World → Type 0} (m : M A)
    → ((w : World) → P' w → P w)
    → Keeps P Q E m
    → Keeps P' Q E m
Keeps-weaken m f km = record { at = λ w h. km.at w (f w h) }

pub ruleset keeps_rules = (Keeps-pure, Keeps-bind, Keeps-attempt, Keeps-if, Keeps-or_return)

-- No call fails.
abbrev pub NoFaults : World → Type 0
NoFaults w = (n : ℕ) → w.fault n ≡ none

module _ {A : Type 0} where
  pub call_fine :
      (f : World → Result A × World) (w : World)
      → NoFaults w
      → call f w ≡ (done (f w).0, record (f w).1 { tick = suc w.tick })
  unfolding call
  call_fine f w h = rw (h w.tick, call)

-- To prove `R` of an action that begins with a call: prove it of the rest after a failed call, and
-- after one that went through.
module _ {A B : Type 0} (R : Outcome B × World → Type 0) where
  pub after_call :
      (f : World → Result A × World) (k : Result A → M B) (w : World)
      → ((text : String) → R (k (err (failure text)) (record w { tick = suc w.tick })))
      → R (k (f w).0 (record (f w).1 { tick = suc w.tick }))
      → R ((call f >>= k) w)
  unfolding call
  after_call f k w failed fine = elim (Option-cases (w.fault w.tick)) [
    | inl e ↦ rw (e, call) fine
    | inr (text, e) ↦ rw (e, call) (failed text)
  ]

  -- The same where no call fails.
  pub fine_call :
      (f : World → Result A × World) (k : Result A → M B) (w : World)
      → NoFaults w
      → R (k (f w).0 (record (f w).1 { tick = suc w.tick }))
      → R ((call f >>= k) w)
  unfolding call
  fine_call f k w h fine = rw (h w.tick, call) fine

module _ {A : Type 0} where
  continue-pure : (o : Outcome A) (w : World) → continue o pure w ≡ (o, w)
  continue-pure (done a) w = refl
  continue-pure (answered r) w = refl
  continue-pure panicked w = refl

  -- An action on its own is one with nothing after it.
  pub on_its_own :
      (R : Outcome A × World → Type 0) (m : M A) (w : World) → R ((m >>= pure) w) → R (m w)
  on_its_own R m w h = subst R (continue-pure (m w).0 (m w).1) h

-- To prove `R` of an action that begins with another one: prove it of each way in which that one ends.
module _ {A B : Type 0} (R : Outcome B × World → Type 0) where
  of_continue :
      (o : Outcome A) (w : World) (k : A → M B)
      → ((a : A) → o ≡ done a → R (k a w))
      → ((r : Response) → o ≡ answered r → R (answered r, w))
      → (o ≡ panicked → R (panicked, w))
      → R (continue o k w)
  of_continue (done a) w k on_done on_answer on_panic = on_done a refl
  of_continue (answered r) w k on_done on_answer on_panic = on_answer r refl
  of_continue panicked w k on_done on_answer on_panic = on_panic refl

  pub after_action :
      (m : M A) (k : A → M B) (w : World)
      → ((a : A) → (m w).0 ≡ done a → R (k a (m w).1))
      → ((r : Response) → (m w).0 ≡ answered r → R (answered r, (m w).1))
      → ((m w).0 ≡ panicked → R (panicked, (m w).1))
      → R ((m >>= k) w)
  after_action m k w = of_continue (m w).0 (m w).1 k

  pub after_expect :
      (f : GoError → Response) (r : Result A) (k : A → M B) (w : World)
      → ((a : A) → r ≡ ok a → R (k a w))
      → ((e : GoError) → r ≡ err e → R (answered (f e), w))
      → R ((expect f r >>= k) w)
  after_expect f (ok a) k w on_ok on_err = on_ok a refl
  after_expect f (err e) k w on_ok on_err = on_err e refl

module _ {B : Type 0} (R : Outcome B × World → Type 0) where
  pub after_require :
      (b : Bool) (r : Response) (k : Unit {0} → M B) (w : World)
      → (b ≡ true → R (k tt w))
      → (b ≡ false → R (answered r, w))
      → R ((require b r >>= k) w)
  after_require true r k w on_true on_false = on_true refl
  after_require false r k w on_true on_false = on_false refl
