-- ===== src/Cli/Effects.antt =====
-- What reaches the clusters: `consumer apply`, dry runs, and a scan with a format that does not exist.
use natsie.Base.{
  String, Bool, true, List, [], ◌∷◌, Option, none, some, string_eq, ◌≡◌, ◌≢◌, refl, ap, ◌∙◌, arith,
  ◌⊎◌, inl, inr, All,
}
use natsie.Base.Result.{ok, err, Result-cases}
use natsie.Config.{Config}
use natsie.Manifest.{Manifest, Entry}
use natsie.Protect.{Protector}
use natsie.Scanner.Classify.{Row}
use natsie.Cleanup
use natsie.Cleanup.Nats.{Server, Session, Request, deletion, dialed, closed, asked}
use natsie.Cleanup.{Options}
use natsie.Cleanup.Guarded.{IsGuarded}
use natsie.Cli.Api.{Env, World, render, unknown_format, format_of}
use natsie.Cli.Consumer.{
  ScanFlags, guarded_config, scanned, manifest_of, emit, apply_manifest, delete_stale, finish,
  scan_action, read_manifest, apply_action, scan_header, scan_cells,
}
use natsie.Cli.Gate.{scan_action-IsGated, scan_action-finish, apply_manifest-IsGuarded}

-- The requests that change nothing.
abbrev pub IsQuestion : Request → Type 0
IsQuestion (deletion _) = ⊥
IsQuestion (dialed _) = Unit {0}
IsQuestion (closed _) = Unit {0}
IsQuestion (asked _ _) = Unit {0}

-- In a dry run no deletion is guarded, so there is none.
All-IsQuestion :
    (opts : Options) (m : Manifest) (log : List Request)
    → opts.dry_run ≡ true
    → IsGuarded opts m log
    → All IsQuestion log
All-IsQuestion opts m [] dry g = tt
All-IsQuestion opts m (dialed c ∷ log) dry g = (tt, All-IsQuestion opts m log dry g)
All-IsQuestion opts m (closed c ∷ log) dry g = (tt, All-IsQuestion opts m log dry g)
All-IsQuestion opts m (asked t f ∷ log) dry g = (tt, All-IsQuestion opts m log dry g)
All-IsQuestion opts m (deletion t ∷ []) dry (c, g) = absurd c
All-IsQuestion opts m (deletion t ∷ dialed _ ∷ log) dry (c, g) = absurd c
All-IsQuestion opts m (deletion t ∷ closed _ ∷ log) dry (c, g) = absurd c
All-IsQuestion opts m (deletion t ∷ deletion _ ∷ log) dry (c, g) = absurd c
All-IsQuestion opts m (deletion t ∷ asked _ _ ∷ log) dry ((_, _, real, _), g) =
    absurd (cc (dry, real))

module _ (S : Server) (env : Env) (order : List String) where
  apply_action-applied :
      (args : List String) (dry : Bool) (w : World S)
      → ((apply_action S env order args dry w).1 ≡ w)
        ⊎ ((path : String) × (m : Manifest) × (cfg : Config) × (guard : Protector) × (args
              ≡ path ∷ [])
            × (read_manifest S env w.fs path ≡ ok m)
            × (guarded_config env ≡ ok (cfg, guard))
            × ((apply_action S env order args dry w).1
                ≡ (apply_manifest S env order m dry guard w).1))
  unfolding apply_action
  apply_action-applied [] dry w = inl refl
  apply_action-applied (path ∷ []) dry w = elim (Result-cases (read_manifest S env w.fs path)) [
    | inr (e, r) ↦ inl (rw (r, apply_action) refl)
    | inl (m, r) ↦ elim (Result-cases (guarded_config env)) [
      | inr (e, c) ↦ inl (rw (r, c, apply_action) refl)
      | inl ((cfg, guard), c) ↦ inr (path, m, cfg, guard, refl, r, c, ground (arith, r, c))
    ]
  ]
  apply_action-applied (path ∷ p ∷ ps) dry w = inl refl

-- A `consumer apply` leaves everything as it is, or has read a manifest of this version from its only
-- argument and sends no deletion, if no request had gone out before, but those that are guarded as
-- those of `Apply` are, with that manifest, the configured protector and `--dry-run`; it changes no
-- file.
pub apply_action-IsGuarded :
    (S : Server) (env : Env) (order args : List String) (dry : Bool) (w : World S)
    → w.session.log ≡ []
    → let w' = (apply_action S env order args dry w).1 in
      (w' ≡ w)
      ⊎ ((path : String) × (m : Manifest) × (cfg : Config) × (guard : Protector) × (args
            ≡ path ∷ [])
          × (read_manifest S env w.fs path ≡ ok m)
          × (guarded_config env ≡ ok (cfg, guard))
          × (w'.fs ≡ w.fs)
          × IsGuarded (record { dry_run = dry; protect = some guard }) m w'.session.log)
apply_action-IsGuarded S env order args dry w fresh =
    elim (apply_action-applied S env order args dry w) [
      | inl same ↦ inl same
      | inr (path, m, cfg, guard, a, r, c, e) ↦
          let (files, safe) = apply_manifest-IsGuarded S env order m dry guard w fresh in
          inr (path, m, cfg, guard, a, r, c, ap (λ v. v.fs) e ∙ files, rw e safe)
    ]

-- With `--dry-run`, `consumer scan` and `consumer apply` send no deletion, if no request had gone out
-- before: they only dial, ask and close.
pub dry_run_asks :
    (S : Server) (env : Env) (order args : List String) (flags : ScanFlags) (w : World S)
    → w.session.log ≡ []
    → flags.dry_run ≡ true
    → All IsQuestion (scan_action S env order flags w).1.session.log
      × All IsQuestion (apply_action S env order args true w).1.session.log
dry_run_asks S env order args flags w fresh dry = (scans, applies)
  where
    scans : All IsQuestion (scan_action S env order flags w).1.session.log
    scans = elim (scan_action-IsGated S env order flags w fresh).0 [
      | inl same ↦ rw (same, fresh) tt
      | inr (_, (cfg, guard, rows, _, _, g)) ↦
          All-IsQuestion (record { dry_run = flags.dry_run; protect = some guard })
            (manifest_of S env cfg guard flags env.deleted_at rows) _ dry g
    ]

    applies : All IsQuestion (apply_action S env order args true w).1.session.log
    applies = elim (apply_action-IsGuarded S env order args true w fresh) [
      | inl same ↦ rw (same, fresh) tt
      | inr (_, m, _, guard, _, _, _, _, g) ↦
          All-IsQuestion (record { dry_run = true; protect = some guard }) m _ refl g
    ]

-- A format that is given and that no command knows.
abbrev pub IsUnknown : String → Type 0
IsUnknown format = (format ≢ "") × (format ≢ "json") × (format ≢ "tsv") × (format ≢ "pretty")

render-unknown_format :
    {A : Type 0} (header : List String) (cells : A → List String) (cfg : Config) (format : String)
    (rows : List A)
    → IsUnknown format
    → render header cells (format_of format cfg) rows ≡ err (unknown_format format)
unfolding render format_of
render-unknown_format header cells cfg format rows (given, json, tsv, pretty) =
    let chosen : format_of format cfg ≡ format = ground (arith, given) in
    rw chosen (ground (arith, json, tsv, pretty))

-- What `Apply` does with the manifest of the rows.
abbrev pub applied_of :
    (S : Server)
    → Env
    → List String
    → ScanFlags
    → World S
    → Config
    → Protector
    → List Row
    → Session S × natsie.Cleanup.Outcome × Option String
applied_of S env order flags w cfg guard rows =
    natsie.Cleanup.apply S order (manifest_of S env cfg guard flags env.deleted_at rows)
      (record { dry_run = flags.dry_run; protect = some guard }) w.session

finish-unknown_format :
    (S : Server) (env : Env) (order : List String) (flags : ScanFlags) (w : World S) (cfg : Config)
    (guard : Protector) (rows : List Row) (e : Entry) (es : List Entry)
    → IsUnknown flags.format
    → flags.delete ≡ true
    → flags.emit_manifest ≡ ""
    → (manifest_of S env cfg guard flags env.deleted_at rows).entries ≡ e ∷ es
    → (applied_of S env order flags w cfg guard rows).2 ≡ none
    → ((finish S env order cfg guard flags rows w).0 ≡ err (unknown_format flags.format))
      × ((finish S env order cfg guard flags rows w).1.session
          ≡ (applied_of S env order flags w cfg guard rows).0)
unfolding finish emit delete_stale apply_manifest
finish-unknown_format S env order flags w cfg guard rows e es unknown del quiet some_entries fine =
    let m = manifest_of S env cfg guard flags env.deleted_at rows in
    let emitted : emit S env cfg guard flags rows w ≡ (none, w) = ground (arith, quiet) in
    let deleted : delete_stale S env order cfg guard flags rows w
        ≡ apply_manifest S env order m flags.dry_run guard w =
      ground (arith, some_entries) in
    let done : (apply_manifest S env order m flags.dry_run guard w).0 ≡ none =
      ground (arith, fine) in
    let refused = render-unknown_format scan_header scan_cells cfg flags.format rows unknown in
    ground (arith, emitted, deleted, done, del, refused)

-- A `consumer scan --delete` with a format that does not exist fails with the error on the format, and
-- with the same deletions as `Apply` makes: the format is looked at only when they are done. This holds
-- where the scan finds entries for its manifest, `Apply` ends without an error and no manifest is
-- written.
pub scan_action-unknown_format :
    (S : Server) (env : Env) (order : List String) (flags : ScanFlags) (w : World S) (cfg : Config)
    (guard : Protector) (rows : List Row) (e : Entry) (es : List Entry)
    → IsUnknown flags.format
    → flags.delete ≡ true
    → flags.emit_manifest ≡ ""
    → guarded_config env ≡ ok (cfg, guard)
    → scanned env w.fs cfg guard flags ≡ ok rows
    → (manifest_of S env cfg guard flags env.deleted_at rows).entries ≡ e ∷ es
    → (applied_of S env order flags w cfg guard rows).2 ≡ none
    → ((scan_action S env order flags w).0 ≡ err (unknown_format flags.format))
      × ((scan_action S env order flags w).1.session
          ≡ (applied_of S env order flags w cfg guard rows).0)
scan_action-unknown_format S env order flags w cfg guard rows e es unknown del quiet c f
      some_entries fine =
    rw (scan_action-finish S env order flags w cfg guard rows c f) (
      finish-unknown_format S env order flags w cfg guard rows e es unknown del quiet some_entries
        fine)
