-- ===== src/Prelude/Text.antt =====
-- Equality of names.
use Prim.Native.String.{String}
use mathlib.Core.Path.{◌≡◌}
use mathlib.Core.Logic.{◌↔◌}
use mathlib.Core.Bool.{Bool, true}
use text.Mathlib.Text
use text.Mathlib.TextEquality.{eq_iff}

abbrev pub eqb : String → String → Bool
eqb s t = Text.◌==◌ s t

pub eqb_iff : (s t : String) → (eqb s t ≡ true) ↔ (s ≡ t)
eqb_iff s t = eq_iff s t
