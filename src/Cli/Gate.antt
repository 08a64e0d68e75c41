-- ===== src/Cli/Gate.antt =====
-- What the commands of the command line can change.
use natsie.Base.{
  String, Bool, true, List, [], ◌∷◌, some, string_eq, ◌≡◌, ◌≢◌, refl, ap, ◌∙◌, arith, ◌⊎◌, inl, inr,
  Bool-cases, Option-cases,
}
use natsie.Base.Result.{ok, Result-cases}
use natsie.Config.{Config}
use natsie.Manifest.{Manifest, Entry, write}
use natsie.Protect.{Protector}
use natsie.Scanner.Classify.{Row}
use natsie.Cleanup.Nats.{Server}
use natsie.Cleanup.Guarded.{IsGuarded, apply-IsGuarded}
use natsie.Cli.Api.{Env, World}
use natsie.Cli.Consumer.{
  ScanFlags, guarded_config, scanned, manifest_of, emit, apply_manifest, delete_stale, finish,
  scan_action,
}

module _ (S : Server) (env : Env) where
  emit-session :
      (cfg : Config) (guard : Protector) (flags : ScanFlags) (rows : List Row) (w : World S)
      → ((emit S env cfg guard flags rows w).1.session ≡ w.session)
        × (((emit S env cfg guard flags rows w).1.fs ≡ w.fs)
            ⊎ ((flags.emit_manifest ≢ "")
                × ((emit S env cfg guard flags rows w).1.fs
                    ≡ (write env.yaml w.fs flags.emit_manifest
                        (manifest_of S env cfg guard flags env.written_at rows)
                        flags.force).1)))
  unfolding emit
  emit-session cfg guard flags rows w = elim (string_eq.dec flags.emit_manifest "") [
    | yes e ↦ ground arith
    | no n ↦ ground arith
  ]

  pub apply_manifest-IsGuarded :
      (order : List String) (m : Manifest) (dry : Bool) (guard : Protector) (w : World S)
      → w.session.log ≡ []
      → ((apply_manifest S env order m dry guard w).1.fs ≡ w.fs)
        × IsGuarded
            (record { dry_run = dry; protect = some guard })
            m
            (apply_manifest S env order m dry guard w).1.session.log
  unfolding apply_manifest
  apply_manifest-IsGuarded order m dry guard w fresh = (
    refl,
    apply-IsGuarded S order m (record { dry_run = dry; protect = some guard }) w.session fresh,
  )

  delete_stale-IsGuarded :
      (order : List String) (cfg : Config) (guard : Protector) (flags : ScanFlags) (rows : List Row)
      (w : World S)
      → w.session.log ≡ []
      → let w' = (delete_stale S env order cfg guard flags rows w).1 in
        (w'.fs ≡ w.fs)
        × ((w'.session ≡ w.session)
            ⊎ IsGuarded
                (record { dry_run = flags.dry_run; protect = some guard })
                (manifest_of S env cfg guard flags env.deleted_at rows)
                w'.session.log)
  unfolding delete_stale
  delete_stale-IsGuarded order cfg guard flags rows w fresh = by_entries m.entries refl
    where
      m : Manifest
      m = manifest_of S env cfg guard flags env.deleted_at rows

      by_entries :
          (es : List Entry)
          → m.entries ≡ es
          → let w' = (delete_stale S env order cfg guard flags rows w).1 in
            (w'.fs ≡ w.fs)
            × ((w'.session ≡ w.session)
                ⊎ IsGuarded
                    (record { dry_run = flags.dry_run; protect = some guard })
                    m
                    w'.session.log)
      by_entries [] f = rw (f, delete_stale) (refl, inl refl)
      by_entries (e ∷ es) f =
          let (files, safe) = apply_manifest-IsGuarded order m flags.dry_run guard w fresh in
          let same : delete_stale S env order cfg guard flags rows w
              ≡ apply_manifest S env order m flags.dry_run guard w =
            ground (arith, f) in
          rw same (files, inr safe)

  -- The deletions of a scan with `--delete`.
  abbrev pub IsDeletion : ScanFlags → World S → World S → Type 0
  IsDeletion flags w w' =
      (flags.delete ≡ true)
      × ((cfg : Config) × (guard : Protector) × (rows : List Row) × (guarded_config env
            ≡ ok (cfg, guard))
          × (scanned env w.fs cfg guard flags ≡ ok rows)
          × IsGuarded (record { dry_run = flags.dry_run; protect = some guard })
              (manifest_of S env cfg guard flags env.deleted_at rows) w'.session.log)

  -- The manifest of a scan with `--emit-manifest`.
  abbrev pub IsEmitted : ScanFlags → World S → World S → Type 0
  IsEmitted flags w w' =
      (flags.emit_manifest ≢ "")
      × ((cfg : Config) × (guard : Protector) × (rows : List Row) × (guarded_config env
            ≡ ok (cfg, guard))
          × (scanned env w.fs cfg guard flags ≡ ok rows)
          × (w'.fs
              ≡ (write env.yaml w.fs flags.emit_manifest
                  (manifest_of S env cfg guard flags env.written_at rows) flags.force).1))

  abbrev IsGated : ScanFlags → World S → World S → Type 0
  IsGated flags w w' =
      ((w'.session ≡ w.session) ⊎ IsDeletion flags w w') × ((w'.fs ≡ w.fs) ⊎ IsEmitted flags w w')

  -- The world of the action is one of two: that of the manifest, or that of the deletions after it.
  finish-world :
      (order : List String) (cfg : Config) (guard : Protector) (flags : ScanFlags) (rows : List Row)
      (w : World S)
      → let w1 = (emit S env cfg guard flags rows w).1 in
        let w' = (finish S env order cfg guard flags rows w).1 in
        (w' ≡ w1)
        ⊎ ((flags.delete ≡ true) × (w' ≡ (delete_stale S env order cfg guard flags rows w1).1))
  unfolding finish
  finish-world order cfg guard flags rows w =
      elim (Option-cases (emit S env cfg guard flags rows w).0) [
        | inr (e, f) ↦ inl (ground (arith, f))
        | inl f ↦ elim (Bool-cases flags.delete) [
          | inr d ↦ inl (ground (arith, f, d))
          | inl d ↦
              let w1 = (emit S env cfg guard flags rows w).1 in
              elim (Option-cases (delete_stale S env order cfg guard flags rows w1).0) [
                | inl g ↦ inr (d, ground (arith, f, d, g))
                | inr (e, g) ↦ inr (d, ground (arith, f, d, g))
              ]
        ]
      ]

  finish-IsGated :
      (order : List String) (cfg : Config) (guard : Protector) (flags : ScanFlags) (rows : List Row)
      (w : World S)
      → w.session.log ≡ []
      → guarded_config env ≡ ok (cfg, guard)
      → scanned env w.fs cfg guard flags ≡ ok rows
      → IsGated flags w (finish S env order cfg guard flags rows w).1
  finish-IsGated order cfg guard flags rows w fresh configured found =
      let w1 = (emit S env cfg guard flags rows w).1 in
      let (kept, files) = emit-session cfg guard flags rows w in
      let emitted : (w1.fs ≡ w.fs) ⊎ IsEmitted flags w w1 = elim files [
        | inl same ↦ inl same
        | inr (n, stored) ↦ inr (n, (cfg, guard, rows, configured, found, stored))
      ] in
      elim (finish-world order cfg guard flags rows w) [
        | inl e ↦ rw e (inl kept, emitted)
        | inr (d, e) ↦
            let (same_files, safe) =
              delete_stale-IsGuarded order cfg guard flags rows w1 (ap (λ s. s.log) kept ∙ fresh) in
            rw e (
              elim safe [
                | inl same ↦ inl (same ∙ kept)
                | inr g ↦ inr (d, (cfg, guard, rows, configured, found, g))
              ],
              elim emitted [
                | inl same ↦ inl (same_files ∙ same)
                | inr (n, (c, p, r, h, k, stored)) ↦ inr (n, (c, p, r, h, k, same_files ∙ stored))
              ],
            )
      ]

pub scan_action-finish :
    (S : Server) (env : Env) (order : List String) (flags : ScanFlags) (w : World S) (cfg : Config)
    (guard : Protector) (rows : List Row)
    → guarded_config env ≡ ok (cfg, guard)
    → scanned env w.fs cfg guard flags ≡ ok rows
    → scan_action S env order flags w ≡ finish S env order cfg guard flags rows w
unfolding scan_action
scan_action-finish S env order flags w cfg guard rows c f = ground (arith, c, f)

-- Without `--delete`, a `consumer scan` sends nothing over the connections on which `Apply` asks and
-- deletes; the connections on which the scan asks for its rows are others, and are not meant here. With
-- it, if no request had gone out over them before, every deletion is guarded as those of `Apply` are,
-- by the configured protector and by `--dry-run`, with the manifest of the rows of the scan. It changes
-- no file but by `--emit-manifest`, and then only by writing the manifest of those rows to that path.
pub scan_action-IsGated :
    (S : Server) (env : Env) (order : List String) (flags : ScanFlags) (w : World S)
    → w.session.log ≡ []
    → let w' = (scan_action S env order flags w).1 in
      ((w'.session ≡ w.session) ⊎ IsDeletion S env flags w w')
      × ((w'.fs ≡ w.fs) ⊎ IsEmitted S env flags w w')
unfolding scan_action
scan_action-IsGated S env order flags w fresh = elim (Result-cases (guarded_config env)) [
  | inr (e, c) ↦ rw (c, scan_action) (inl refl, inl refl)
  | inl ((cfg, guard), c) ↦ elim (Result-cases (scanned env w.fs cfg guard flags)) [
    | inr (e, f) ↦ rw (c, f, scan_action) (inl refl, inl refl)
    | inl (rows, f) ↦
        rw (scan_action-finish S env order flags w cfg guard rows c f)
          (finish-IsGated S env order cfg guard flags rows w fresh c f)
  ]
]
