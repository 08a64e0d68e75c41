-- ===== src/Base/Text.antt =====
-- Go strings as native texts, read by code points; `<>` is Go's `+`.
use Prim.Native.Char.{Char}
use Prim.Native.String.{String, [], ◌∷◌}
use mathlib.Core.Path.{◌≡◌, refl, ap}
use mathlib.Core.Logic.{◌≢◌}

infixr 65 ◌<>◌
abbrev pub ◌<>◌ : String → String → String
[] <> t = t
(c ∷ s) <> t = c ∷ (s <> t)

pub <>-nil : (s : String) → s <> "" ≡ s
<>-nil [] = refl
<>-nil (c ∷ s) = ap (λ t. c ∷ t) (<>-nil s)

pub <>_assoc : (s t u : String) → (s <> t) <> u ≡ s <> (t <> u)
<>_assoc [] t u = refl
<>_assoc (c ∷ s) t u = ap (λ v. c ∷ v) (<>_assoc s t u)

pub cons-ne-nil : (c : Char) (s : String) → (c ∷ s) ≢ ""
cons-ne-nil c s e = cc
