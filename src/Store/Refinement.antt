-- ===== src/Store/Refinement.antt =====
-- The store as a map from ids to manifests: what successful operations make of it, one after another.
use mathlib.Core.Path.{fun_ext}
use natsie.Base.{
  String, List, [], ◌∷◌, ◌==◌, string_eq, if◌then◌else◌, ◌≡◌, ap, sym, ◌∙◌, arith, All, eq→==,
  ne→==, inl, inr,
}
use natsie.Base.Result.{Result, ok, err, Result-cases}
use natsie.Go.Os.{Fs, not_exist}
use natsie.Manifest.{version, Manifest, Yaml, unreadable}
use natsie.Manifest.RoundTrip.{RoundTrips}
use natsie.Store.{File, Error, of_manifest, put, get, delete}
use natsie.Store.Laws.{get-put, get-put-other, get-delete, get-delete-other}

pub data Op : Type 0 where
  storing : String → Manifest → Op
  removing : String → Op

-- What `Get` returns for each id.
abbrev pub View : Type 0
View = String → Result Error Manifest

-- The operations on the abstract map.
abbrev pub set : String → Result Error Manifest → View → View
set id r v = λ j. if id == j then r else v j

abbrev pub apply_op : Op → View → View
apply_op (storing id m) v = set id (ok m) v
apply_op (removing id) v = set id (err (of_manifest (unreadable not_exist))) v

abbrev pub apply_ops : List Op → View → View
apply_ops [] v = v
apply_ops (op ∷ ops) v = apply_ops ops (apply_op op v)

abbrev pub IsCurrent : Op → Type 0
IsCurrent (storing id m) = m.version ≡ version
IsCurrent (removing id) = Unit {0}

module _ (yaml : Yaml) (f : File) where
  unfoldable pub step : Op → Fs → Result Error (Unit {0}) × Fs
  step (storing id m) fs = put yaml f fs id m
  step (removing id) fs = delete f fs id

  -- Operations one after another, up to the first error.
  unfoldable pub run : List Op → Fs → Result Error Fs
  unfolding step
  run [] fs = ok fs
  run (op ∷ ops) fs =
      let rest = run ops (step op fs).1 in elim (step op fs).0 [ err e ↦ err e | ok _ ↦ rest ]

  step-apply_op :
      (op : Op) (fs fs' : Fs)
      → RoundTrips yaml
      → IsCurrent op
      → step op fs ≡ (ok tt, fs')
      → (j : String) → get yaml f fs' j ≡ apply_op op (get yaml f fs) j
  unfolding step
  step-apply_op (storing id m) fs fs' back current done j = elim (string_eq.dec id j) [
    | yes same ↦ rw (eq→== id j same, ← same) (get-put yaml f fs id m back current done)
    | no differ ↦ rw (ne→== id j differ) (
        ap (λ (w : Result Error Unit × Fs). get yaml f w.1 j) (sym done)
        ∙ get-put-other yaml f fs id j m differ)
  ]
  step-apply_op (removing id) fs fs' back current done j = elim (string_eq.dec id j) [
    | yes same ↦ rw (eq→== id j same, ← same) (get-delete yaml f fs id done)
    | no differ ↦ rw (ne→== id j differ) (
        ap (λ (w : Result Error Unit × Fs). get yaml f w.1 j) (sym done)
        ∙ get-delete-other yaml f fs id j differ)
  ]

-- The store refines a map from ids to manifests: after `Put`s and `Delete`s that all succeed, `Get`
-- returns for each id what the map has after the same operations, if the YAML package reads back what
-- it wrote and the manifests are of this version. So the last `Put` or `Delete` of an id decides what
-- is read, and no operation touches another id.
pub get-run :
    (yaml : Yaml) (f : File) (ops : List Op) (fs fs' : Fs) (j : String)
    → RoundTrips yaml
    → All IsCurrent ops
    → run yaml f ops fs ≡ ok fs'
    → get yaml f fs' j ≡ apply_ops ops (get yaml f fs) j
unfolding run
get-run yaml f [] fs fs' j back current done = ground (arith, done)
get-run yaml f (op ∷ ops) fs fs' j back (current, more) done =
    elim (Result-cases (step yaml f op fs).0) [
      | inr (e, failed) ↦ absurd (ground (arith, failed))
      | inl (u, good) ↦
          let next = (step yaml f op fs).1 in
          let stepped : step yaml f op fs ≡ (ok tt, next) = ground (arith, good) in
          let view : get yaml f next ≡ apply_op op (get yaml f fs) =
            fun_ext (step-apply_op yaml f op fs next back current stepped) in
          let later : run yaml f ops next ≡ ok fs' = ground (arith, good) in
          get-run yaml f ops next fs' j back more later ∙ ap (λ v. apply_ops ops v j) view
    ]
