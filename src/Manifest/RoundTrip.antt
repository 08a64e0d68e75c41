-- ===== src/Manifest/RoundTrip.antt =====
-- What is read after a manifest was written.
use natsie.Base.{
  String, Bool, true, false, string_eq, ◌≡◌, ◌≢◌, refl, arith, inl, inr, ◌⊎◌, ◌↔◌, sym, ◌∙◌,
}
use natsie.Base.Result.{Result, ok, err, Result-cases}
use natsie.Go.Os.{not_exist, is_folder, refused, Fs, stat, read_file, write_file}
use natsie.Go.Os.Files.{read_file-write_file, stat-write_file-other}
use natsie.Manifest.{
  version, Manifest, Error, already_exists, unstatable, unmarshalable, Yaml, parse, read,
  marshal_to, write,
}

-- What the source relies on in the YAML package: a manifest's document is read back as it was.
pub record RoundTrips (yaml : Yaml) : Type 0 where
  pub back : (m : Manifest) (text : String) → yaml.marshal m ≡ ok text → yaml.unmarshal text ≡ ok m

module _ (yaml : Yaml) (fs : Fs) (path : String) (m : Manifest) where
  marshal_to-ok :
      {fs' : Fs}
      → marshal_to yaml fs path m ≡ (ok tt, fs')
      → (text : String) × (yaml.marshal m ≡ ok text) × (write_file fs path text ≡ (ok tt, fs'))
  unfolding marshal_to
  marshal_to-ok e = elim (Result-cases (yaml.marshal m)) [
    | inl (text, f) ↦ (text, f, ground arith)
    | inr (x, f) ↦ absurd (ground arith)
  ]

  -- Without force, a write goes through where the path does not exist, or changes nothing.
  write-unforced :
      ((write yaml fs path m false ≡ marshal_to yaml fs path m) × (stat fs path ≡ err not_exist))
      ⊎ ((e : Error) × (write yaml fs path m false ≡ (err e, fs)))
  unfolding write
  write-unforced = elim (Result-cases (stat fs path)) [
    | inl (n, f) ↦ inr (already_exists path, ground arith)
    | inr (not_exist, f) ↦ inl (ground arith, f)
    | inr (is_folder, f) ↦ inr (unstatable is_folder, ground arith)
    | inr (refused x, f) ↦ inr (unstatable (refused x), ground arith)
  ]

  read-marshal_to :
      {fs' : Fs}
      → RoundTrips yaml
      → m.version ≡ version
      → marshal_to yaml fs path m ≡ (ok tt, fs')
      → read yaml fs' path ≡ ok m
  unfolding read parse
  read-marshal_to y v e =
      let (text, f, g) = marshal_to-ok e in
      ground (arith, read_file-write_file fs path text g, y.back m text f, v)

  stat-marshal_to-other : (q : String) → path ≢ q → stat (marshal_to yaml fs path m).1 q ≡ stat fs q
  unfolding marshal_to
  stat-marshal_to-other q d = elim (Result-cases (yaml.marshal m)) [
    | inl (text, f) ↦ ground (arith, stat-write_file-other fs path q text d)
    | inr (x, f) ↦ ground arith
  ]

-- A manifest of this version that `Write` has written, forced or not, is what `Read` then reads
-- at the path, if the YAML package reads back what it wrote.
pub read-write :
    (yaml : Yaml) (fs : Fs) (path : String) (m : Manifest) (force : Bool) {fs' : Fs}
    → RoundTrips yaml
    → m.version ≡ version
    → write yaml fs path m force ≡ (ok tt, fs')
    → read yaml fs' path ≡ ok m
unfolding write
read-write yaml fs path m true y v e = read-marshal_to yaml fs path m y v e
read-write yaml fs path m false y v e = elim (write-unforced yaml fs path m) [
  | inl (f, g) ↦ read-marshal_to yaml fs path m y v (sym f ∙ e)
  | inr (x, f) ↦ absurd (ground arith)
]

-- `Write` leaves what stands under every other spelling of a path.
pub write_keeps :
    (yaml : Yaml) (fs : Fs) (path : String) (m : Manifest) (force : Bool) (q : String)
    → path ≢ q
    → stat (write yaml fs path m force).1 q ≡ stat fs q
unfolding write
write_keeps yaml fs path m true q d = stat-marshal_to-other yaml fs path m q d
write_keeps yaml fs path m false q d = elim (write-unforced yaml fs path m) [
  | inl (f, g) ↦ rw f (stat-marshal_to-other yaml fs path m q d)
  | inr (x, f) ↦ rw f refl
]

-- Without force, either nothing stood at the path, or `Write` returns an error and changes no file.
pub write_fresh :
    (yaml : Yaml) (fs : Fs) (path : String) (m : Manifest)
    → (stat fs path ≡ err not_exist) ⊎ ((e : Error) × (write yaml fs path m false ≡ (err e, fs)))
write_fresh yaml fs path m = elim (write-unforced yaml fs path m) [
  | inl (f, g) ↦ inl g
  | inr (x, f) ↦ inr (x, f)
]

-- What is read depends on what stands at the path alone.
pub read-stat :
    (yaml : Yaml) (fs fs' : Fs) (path : String)
    → stat fs path ≡ stat fs' path
    → read yaml fs path ≡ read yaml fs' path
unfolding read read_file
read-stat yaml fs fs' path e = ground (arith, e)

-- A write that leaves the files alone and fails, or one that may go through.
abbrev pub NoClobber : Yaml → Fs → String → Manifest → Bool → Result Error (Unit {0}) × Fs → Type 0
NoClobber yaml fs path m force (r, fs') =
    (((e : Error) × (r ≡ err e)) × (fs' ≡ fs))
    ⊎ ((text : String) × (yaml.marshal m ≡ ok text)
        × ((force ≡ true) ⊎ (stat fs path ≡ err not_exist))
        × (fs' ≡ (write_file fs path text).1)
        × ((r ≡ ok tt) ↔ ((write_file fs path text).0 ≡ ok tt)))

marshal_to-NoClobber :
    (yaml : Yaml) (fs : Fs) (path : String) (m : Manifest) (force : Bool)
    → (force ≡ true) ⊎ (stat fs path ≡ err not_exist)
    → NoClobber yaml fs path m force (marshal_to yaml fs path m)
unfolding marshal_to
marshal_to-NoClobber yaml fs path m force allowed = elim (Result-cases (yaml.marshal m)) [
  | inr (x, f) ↦ inl (rw (f, marshal_to) ((unmarshalable x, refl), refl))
  | inl (text, f) ↦ elim (Result-cases (write_file fs path text).0) [
    | inl (u, g) ↦
        inr (
          text,
          f,
          allowed,
          rw (f, g, marshal_to) refl,
          rw (f, g, marshal_to) (λ _. refl, λ _. refl),
        )
    | inr (x, g) ↦ inr (
      text,
      f,
      allowed,
      rw (f, g, marshal_to) refl,
      rw (f, g, marshal_to) (λ e. absurd cc, λ e. absurd cc),
    )
  ]
]

-- Without force `Write` never writes over a file: either it fails and changes no file, or the manifest
-- has a document, force is given or nothing stands at the path, and what it does to the files is to
-- write that document to the path; then it succeeds just if that does.
pub write-NoClobber :
    (yaml : Yaml) (fs : Fs) (path : String) (m : Manifest) (force : Bool)
    → NoClobber yaml fs path m force (write yaml fs path m force)
write-NoClobber yaml fs path m true =
    unfold write in marshal_to-NoClobber yaml fs path m true (inl refl)
write-NoClobber yaml fs path m false = elim (write-unforced yaml fs path m) [
  | inl (same, absent) ↦ rw same (marshal_to-NoClobber yaml fs path m false (inr absent))
  | inr (x, f) ↦ inl (rw f ((x, refl), refl))
]
