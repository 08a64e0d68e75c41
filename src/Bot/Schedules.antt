-- ===== src/Bot/Schedules.antt =====
-- What a schedule of the bot can do to the clusters and the store.
use natsie.Base.{
  String, ◌<>◌, true, false, List, [], ◌≡◌, ◌≢◌, refl, ◌∙◌, arith, ◌⊎◌, inl, inr, Bool-cases,
  string_eq, eq→==, ne→==,
}
use natsie.Base.Result.{ok, Result-cases}
use natsie.Go.Time.{Time, format_stamp}
use natsie.Cleanup.Nats.{Server}
use natsie.Cleanup.Guarded.{IsGuarded}
use natsie.Metrics.{Metrics}
use natsie.Scanner.Classify.{Row}
use natsie.Store.{put}
use natsie.Bot.{
  Schedule, build_manifest, kind_stream_unlimited, kind_peer_check, kind_stream_report,
}
use natsie.Bot.Dispatch.{World}
use natsie.Bot.Gate.{
  Same, propose_cases, announce-Same, run_scan-scanned, run_scan-gated, run_scan-IsGuarded,
}
use natsie.Bot.Jobs.{Clock, run_stream_check, run_kind, run_job}
use natsie.Bot.Run.{Settings, run_scan, run_peer_check, run_stream_report, scanned}

module _ (S : Server) (b : Settings) (s : Schedule) (w : World S) where
  run_peer_check-Same : Same (run_peer_check S b s w).1 w
  unfolding run_peer_check
  run_peer_check-Same = ground arith

  run_stream_report-Same : Same (run_stream_report S b s w).1 w
  unfolding run_stream_report
  run_stream_report-Same = ground arith

  run_stream_check-Same : Same (run_stream_check S b s w).1 w
  unfolding run_stream_check
  run_stream_check-Same = ground arith

  run_scan-fs :
      (clusters order : List String) (at generated now : Time)
      → s.auto_delete ≡ false
      → let w' = (run_scan S b clusters order at generated now s w).1 in
        (w'.fs ≡ w.fs)
        ⊎ ((rows : List Row) × (scanned b at s ≡ ok rows)
            × (w'.fs
                ≡ (put b.yaml b.store w.fs
                    (s.name <> ("-" <> format_stamp now))
                    (build_manifest b.short generated s rows)).1))
  unfolding run_scan
  run_scan-fs clusters order at generated now gated = elim (Result-cases (scanned b at s)) [
    | inr (x, f) ↦ inl (rw (f, run_scan) refl)
    | inl (rows, f) ↦
        let m = build_manifest b.short generated s rows in
        elim (propose_cases S b s m w clusters order now) [
          | inl (_, files, _) ↦ inl (rw (f, run_scan) files)
          | inr (inl (auto, _)) ↦ absurd (ground arith)
          | inr (inr (_, e)) ↦ inr (
            rows,
            f,
            rw (run_scan-scanned S b clusters order at generated now s w rows f ∙ e)
                (announce-Same S b s m w order now).1,
          )
        ]
  ]

-- The schedule is none of the reports, which only notify.
abbrev pub IsScan : Schedule → Type 0
IsScan s =
    (s.kind ≢ kind_stream_unlimited) × (s.kind ≢ kind_peer_check) × (s.kind ≢ kind_stream_report)

module _ (S : Server) (b : Settings) (clusters order : List String) (c : Clock) where
  -- A scan that deletes by itself, and its deletions.
  abbrev pub IsDeletion : Schedule → World S → Type 0
  IsDeletion s w' =
      (s.auto_delete ≡ true)
      × IsScan s
      × ((rows : List Row) × (scanned b c.at s ≡ ok rows)
          × IsGuarded (record { dry_run = false; protect = b.guard })
              (build_manifest b.short c.generated s rows) w'.session.log)

  -- A scan that waits for an approval, and the manifest that it stores.
  abbrev pub IsProposed : Schedule → World S → World S → Type 0
  IsProposed s w w' =
      (s.auto_delete ≡ false)
      × IsScan s
      × ((rows : List Row) × (scanned b c.at s ≡ ok rows)
          × (w'.fs
              ≡ (put b.yaml b.store w.fs (s.name <> ("-" <> format_stamp c.now))
                  (build_manifest b.short c.generated s rows)).1))

  abbrev IsGated : Schedule → World S → World S → Type 0
  IsGated s w w' =
      ((w'.session ≡ w.session) ⊎ IsDeletion s w') × ((w'.fs ≡ w.fs) ⊎ IsProposed s w w')

  run_scan-IsGated :
      (s : Schedule) (w : World S)
      → w.session.log ≡ []
      → IsScan s
      → IsGated s w (run_scan S b clusters order c.at c.generated c.now s w).1
  run_scan-IsGated s w fresh scans = elim (Bool-cases s.auto_delete) [
    | inl auto ↦
        let (files, deletes) =
          run_scan-IsGuarded S b clusters order c.at c.generated c.now s w fresh auto in
        (
          elim deletes [
            | inl same ↦ inl same
            | inr (rows, f, safe) ↦ inr (auto, scans, (rows, f, safe))
          ],
          inl files,
        )
    | inr gated ↦ (
      inl (run_scan-gated S b clusters order c.at c.generated c.now s w gated),
      elim (run_scan-fs S b s w clusters order c.at c.generated c.now gated) [
        | inl same ↦ inl same
        | inr (rows, f, stored) ↦ inr (gated, scans, (rows, f, stored))
      ],
    )
  ]

  run_kind-IsGated :
      (s : Schedule) (w : World S)
      → w.session.log ≡ []
      → IsGated s w (run_kind S b clusters order c s w).1
  unfolding run_kind
  run_kind-IsGated s w fresh = elim (string_eq.dec s.kind kind_stream_unlimited) [
    | yes u ↦
        let (files, session) = run_stream_check-Same S b s w in
        rw (eq→== _ _ u, run_kind) (inl session, inl files)
    | no u ↦ elim (string_eq.dec s.kind kind_peer_check) [
      | yes p ↦
          let (files, session) = run_peer_check-Same S b s w in
          rw (ne→== _ _ u, eq→== _ _ p, run_kind) (inl session, inl files)
      | no p ↦ elim (string_eq.dec s.kind kind_stream_report) [
        | yes r ↦
            let (files, session) = run_stream_report-Same S b s w in
            rw (ne→== _ _ u, ne→== _ _ p, eq→== _ _ r, run_kind) (inl session, inl files)
        | no r ↦
            rw (ne→== _ _ u, ne→== _ _ p, ne→== _ _ r, run_kind)
              (run_scan-IsGated s w fresh (u, p, r))
      ]
    ]
  ]

-- A job of the scheduler, of whatever kind, does nothing on the clusters but by a scan with
-- auto-delete, whose deletions are guarded as those of `Apply` are if no request had gone out before;
-- it changes no file but by a scan without auto-delete, which stores the manifest of its rows.
pub run_job-IsGated :
    (S : Server) (b : Settings) (clusters order : List String) (c : Clock) (s : Schedule)
    (w : World S) (m : Metrics)
    → w.session.log ≡ []
    → let w' = (run_job S b clusters order c s (w, m)).1.0 in
      ((w'.session ≡ w.session) ⊎ IsDeletion S b clusters order c s w')
      × ((w'.fs ≡ w.fs) ⊎ IsProposed S b clusters order c s w w')
unfolding run_job
run_job-IsGated S b clusters order c s w m fresh = run_kind-IsGated S b clusters order c s w fresh
