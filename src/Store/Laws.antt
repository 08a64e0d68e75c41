-- ===== src/Store/Laws.antt =====
-- What the store gives back after its operations.
use natsie.Base.{String, true, ◌≡◌, ◌≢◌, sym, ap, ◌∙◌, arith, inl, inr, ◌⊎◌}
use natsie.Base.Result.{ok, err, Result-cases}
use natsie.Go.Os.{not_exist, is_folder, refused, Fs, stat, remove, read_file}
use natsie.Go.Os.Files.{stat-remove-other, stat-remove-same}
use natsie.Manifest.{version, Manifest, Yaml, read, write, unreadable}
use natsie.Manifest.RoundTrip.{RoundTrips, read-write, write_keeps, read-stat}
use natsie.Store.{File, of_manifest, path, put, get, delete}
use natsie.Store.Paths.{path-injective}

-- A manifest of this version that `Put` has stored is what `Get` returns for the id, if the YAML
-- package reads back what it wrote.
pub get-put :
    (yaml : Yaml) (f : File) (fs : Fs) (id : String) (m : Manifest) {fs' : Fs}
    → RoundTrips yaml
    → m.version ≡ version
    → put yaml f fs id m ≡ (ok tt, fs')
    → get yaml f fs' id ≡ ok m
unfolding put get
get-put yaml f fs id m {fs' = fs'} y v e = elim (Result-cases (path f id)) [
  | inl (p, g) ↦ ground (arith, g, read-write yaml fs p m true y v (written p g))
  | inr (x, g) ↦ absurd (ground arith)
]
  where
    written : (p : String) → path f id ≡ ok p → write yaml fs p m true ≡ (ok tt, fs')
    written p g = ground (arith, g)

-- `Put` under one id changes what `Get` returns for no other id.
pub get-put-other :
    (yaml : Yaml) (f : File) (fs : Fs) (id j : String) (m : Manifest)
    → id ≢ j
    → get yaml f (put yaml f fs id m).1 j ≡ get yaml f fs j
unfolding put get
get-put-other yaml f fs id j m d = elim (Result-cases (path f id)) [
  | inr (x, g) ↦ ground arith
  | inl (p, g) ↦ elim (Result-cases (path f j)) [
    | inr (x, h) ↦ ground arith
    | inl (q, h) ↦
        let apart : p ≢ q = λ same. d (path-injective f id j g (h ∙ ap ok (sym same))) in
        ground (
          arith,
          read-stat yaml (write yaml fs p m true).1 fs q (write_keeps yaml fs p m true q apart),
        )
  ]
]

-- After a `Delete` that succeeds, `Get` finds no file for the id.
pub get-delete :
    (yaml : Yaml) (f : File) (fs : Fs) (id : String) {fs' : Fs}
    → delete f fs id ≡ (ok tt, fs')
    → get yaml f fs' id ≡ err (of_manifest (unreadable not_exist))
unfolding delete get read read_file
get-delete yaml f fs id {fs' = fs'} e = elim (Result-cases (path f id)) [
  | inl (p, g) ↦ ground (arith, g, missing p (stat-remove-same fs p (over p g)) (after p g))
  | inr (x, g) ↦ absurd (ground arith)
]
  where
    over :
        (p : String)
        → path f id ≡ ok p
        → ((remove fs p).0 ≡ ok tt) ⊎ ((remove fs p).0 ≡ err not_exist)
    over p g = elim (Result-cases (remove fs p).0) [
      | inl (tt, h) ↦ inl h
      | inr (not_exist, h) ↦ inr h
      | inr (is_folder, h) ↦ absurd (ground (arith, g))
      | inr (refused x, h) ↦ absurd (ground (arith, g))
    ]

    after : (p : String) → path f id ≡ ok p → (remove fs p).1 ≡ fs'
    after p g = elim (over p g) [ inl h ↦ ground (arith, g) | inr h ↦ ground (arith, g) ]

    missing :
        (p : String)
        → stat (remove fs p).1 p ≡ err not_exist
        → (remove fs p).1 ≡ fs'
        → read yaml fs' p ≡ err (unreadable not_exist)
    missing p h e = ground (arith)

-- `Delete` of one id changes what `Get` returns for no other id.
pub get-delete-other :
    (yaml : Yaml) (f : File) (fs : Fs) (id j : String)
    → id ≢ j
    → get yaml f (delete f fs id).1 j ≡ get yaml f fs j
unfolding delete get
get-delete-other yaml f fs id j d = elim (Result-cases (path f id)) [
  | inr (x, g) ↦ ground arith
  | inl (p, g) ↦ elim (Result-cases (path f j)) [
    | inr (x, h) ↦ ground arith
    | inl (q, h) ↦
        let apart : p ≢ q = λ same. d (path-injective f id j g (h ∙ ap ok (sym same))) in
        ground (arith, read-stat yaml (remove fs p).1 fs q (stat-remove-other fs p q apart))
  ]
]
