-- ===== src/Common.antt =====
-- The names that the other modules share: the libraries', passed on, Boolean tests on native
-- numbers, and the coding of Python texts.
mod Tests
mod Lists
pub use Tests.*
pub use Lists.*
pub use Prim.Native.Nat.{ℕ, zero, suc, ◌+◌, ◌-◌, ◌*◌, ◌/◌, ◌%◌, ◌≤◌, ◌<◌}
pub use Prim.Native.String.{String}
pub use mathlib.Core.Path.{◌≡◌, refl, sym, ap, ◌∙◌}
pub use mathlib.Core.Logic.{◌≢◌, ◌↔◌, ◌⊎◌, inl, inr}
pub use mathlib.Core.Bool.{Bool, true, false, not, ◌&&◌, ◌||◌}
pub use mathlib.Core.Option.{Option, none, some}
pub use mathlib.Core.List.{List, [], ◌∷◌, ◌++◌, map}
pub use mathlib.Core.List.{Memᴰ}
pub use native.Mathlib.Omega.{arith}

-- A Python `str` that the code only stores, compares, orders and tests for emptiness, as its place
-- in the order of the texts at hand: equality and order of texts are those of the numbers, and the
-- empty text, the least of all, is 0.
abbrev pub Text : Type 0
Text = ℕ

-- `if text:` of an optional text: neither absent nor empty.
abbrev pub is_filled : Option Text → Bool
is_filled none = false
is_filled (some zero) = false
is_filled (some (suc n)) = true

-- `text or other`
abbrev pub text_or : Option Text → Text → Text
text_or none d = d
text_or (some zero) d = d
text_or (some (suc n)) d = suc n
