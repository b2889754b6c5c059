-- ===== src/Testers/Groups.antt =====
-- The tester groups that are pushed to Play: none is empty, none comes twice.
use release_hub.Base.{
  String, List, [], ◌∷◌, ◌++◌, ◌≡◌, refl, ◌==◌, any_of, eq_iff, arith, false, Bool-cases, inl, inr,
  All, All-append,
}
use release_hub.Text.{trim_space}
use release_hub.World.{Outside}
use release_hub.Testers.{add_group, add_groups, fields, normalize_tester_groups}

abbrev NoRepeat : List String → Type 0
NoRepeat [] = Unit
NoRepeat (g ∷ gs) = (any_of (λ s. s == g) gs ≡ false) × NoRepeat gs

-- No group is empty, and no group stands in the list twice.
abbrev pub IsClean : List String → Type 0
IsClean gs = All (λ g. (g == "") ≡ false) gs × NoRepeat gs

any_of-snoc :
    (s g : String) (gs : List String)
    → any_of (λ t. t == s) gs ≡ false
    → (g == s) ≡ false
    → any_of (λ t. t == s) (gs ++ g ∷ []) ≡ false
unfolding any_of
any_of-snoc s g [] h k = ground (arith, k)
any_of-snoc s g (t ∷ gs) h k = ground (arith, any_of-snoc s g gs (ground (arith, h)) k)

NoRepeat-snoc :
    (g : String) (gs : List String)
    → any_of (λ s. s == g) gs ≡ false
    → NoRepeat gs
    → NoRepeat (gs ++ g ∷ [])
unfolding any_of
NoRepeat-snoc g [] h k = (refl, tt)
NoRepeat-snoc g (s ∷ gs) h (ks, k) = (
  any_of-snoc s g gs ks (ground (arith, eq_iff s g, eq_iff g s)),
  NoRepeat-snoc g gs (ground arith) k,
)

IsClean-add_group : (gs : List String) (g : String) → IsClean gs → IsClean (add_group gs g)
unfolding add_group
IsClean-add_group gs g (full, fresh) = elim (Bool-cases (g == "")) [
  | inl empty ↦ rw empty (full, fresh)
  | inr filled ↦ elim (Bool-cases (any_of (λ s. s == g) gs)) [
    | inl seen ↦ rw (filled, seen) (full, fresh)
    | inr unseen ↦
        rw (filled, unseen)
          (
            All-append (λ s. (s == "") ≡ false) gs (g ∷ []) full (filled, tt),
            NoRepeat-snoc g gs unseen fresh,
          )
  ]
]

IsClean-add_groups :
    (lower : String → String) (gs rest : List String)
    → IsClean gs
    → IsClean (add_groups lower gs rest)
unfolding add_groups
IsClean-add_groups lower gs [] h = h
IsClean-add_groups lower gs (g ∷ rest) h =
    IsClean-add_groups lower (add_group gs (lower (trim_space g))) rest (IsClean-add_group gs _ h)

-- Whatever is typed into the list of testers, no group that is read from it is empty, and none comes
-- twice.
pub normalize_tester_groups-IsClean :
    (x : Outside) (v : String) → IsClean (normalize_tester_groups x v)
unfolding normalize_tester_groups
normalize_tester_groups-IsClean x v = IsClean-add_groups x.lower [] (fields "" v) (tt, tt)
