-- ===== src/Store/Paths.antt =====
-- The path of an id: no two ids share one.
use Prim.Native.String.{[], ◌∷◌}
use natsie.Base.{◌+◌, String, ◌<>◌, ◌≡◌, refl, ap, arith}
use natsie.Base.Result.{ok}
use natsie.Go.Strings.{count}
use natsie.Store.{File, path, manifest_ext}

count-<> : (s t : String) → count (s <> t) ≡ count s + count t
unfolding count
count-<> [] t = omega arith
count-<> (c ∷ s) t = omega (arith, count-<> s t)

<>-cancel_left : (s t u : String) → s <> t ≡ s <> u → t ≡ u
<>-cancel_left [] t u e = e
<>-cancel_left (c ∷ s) t u e = <>-cancel_left s t u (ground arith)

<>-cancel_right : (s t u : String) → s <> u ≡ t <> u → s ≡ t
unfolding count
<>-cancel_right [] [] u e = refl
<>-cancel_right [] (d ∷ t) u e = absurd (omega (arith, count-<> (d ∷ t) u, ap count e))
<>-cancel_right (c ∷ s) [] u e = absurd (omega (arith, count-<> (c ∷ s) u, ap count e))
<>-cancel_right (c ∷ s) (d ∷ t) u e = ground (arith, <>-cancel_right s t u (ground arith))

pub path-injective :
    (f : File) (i j : String) {p : String} → path f i ≡ ok p → path f j ≡ ok p → i ≡ j
unfolding path
path-injective f i j e g =
    <>-cancel_right i j manifest_ext
      (<>-cancel_left "/" _ _ (<>-cancel_left f.dir _ _ (ground arith)))
