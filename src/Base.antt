-- ===== src/Base.antt =====
-- The names that the other modules share: the libraries', passed on, and those of the children.
mod Tests
mod Lists
pub mod Int
pub use Tests.*
pub use Lists.{
  length, take, drop, head?, length-append, length-take, length-drop, All, All-append, All-keep_if,
  length-keep_if-le, keep_if-append, keep_if-keep_if, keep_if_comm, keep_if-All, keep_if-none,
}
unfoldable pub use Lists.{keep_if, find_first, any_of}
pub use Prim.Native.Nat.{ℕ, zero, suc, ◌+◌, ◌-◌, ◌*◌, ◌/◌, ◌%◌, ◌^◌, ◌≤◌, ◌<◌}
pub use Prim.Native.Char.{Char, code}
pub use Prim.Native.String.{String}
pub use mathlib.Core.Path.{◌≡◌, refl, sym, ap, ◌∙◌, ◌≡⟨◌⟩◌, ◌∎}
pub use mathlib.Core.Logic.{◌≢◌, ◌↔◌, ◌⊎◌, inl, inr}
pub use mathlib.Core.Bool.{Bool, true, false, not, ◌&&◌, ◌||◌}
pub use mathlib.Core.Option.{Option, none, some}
pub use mathlib.Core.List.{List, [], ◌∷◌, ◌++◌, map, append_assoc, append-nil}
pub use native.Mathlib.Omega.{arith}
pub use text.Mathlib.Text.{◌==◌, starts_with}
pub use text.Mathlib.TextEquality.{eq_iff}
pub use text.Mathlib.TextPositions.{eq_refl}

-- Go's `a + b` on strings; the spelling `++` is that of lists.
infixr 65 ◌+++◌
abbrev pub ◌+++◌ : String → String → String
s +++ t = Prim.Native.String.◌++◌ s t

-- To split on a comparison of texts.
pub Text-cases : (s t : String) → (s ≡ t) ⊎ ((s == t) ≡ false)
Text-cases s t = elim (Bool-cases (s == t)) [ inl e ↦ inl ((eq_iff s t).0 e) | inr e ↦ inr e ]
