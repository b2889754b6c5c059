-- ===== src/Text/Prefix.antt =====
-- A text in front of another: what is left without it, and which texts it is not.
use text.Mathlib.TextPositions.{starts_with-append}
use text.Mathlib.TextLemmas.{nil-append, cons-append}
use Prim.Native.String.{[], ◌∷◌}
use release_hub.Base.{String, false, ◌≡◌, sym, ◌==◌, ◌+++◌, starts_with, Text-cases, inl, inr}
use release_hub.Text.{drop_chars}

pub drop_chars-append : (p s : String) → drop_chars p (p +++ s) ≡ s
unfolding drop_chars
drop_chars-append [] s = nil-append s
drop_chars-append (c ∷ p) s = rw cons-append (drop_chars-append p s)

-- A text with the prefix is none of the texts that do not start so.
pub prefixed-ne : (p s t : String) → starts_with t p ≡ false → ((p +++ s) == t) ≡ false
prefixed-ne p s t h = elim (Text-cases (p +++ s) t) [
  | inl e ↦ cc (sym (starts_with-append p s), e, h)
  | inr e ↦ e
]
