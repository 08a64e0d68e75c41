-- ===== src/Bot/Gate.antt =====
-- When a run of the bot may send a deletion.
use natsie.Base.{
  String, ◌<>◌, true, false, List, [], ◌∷◌, none, string_eq, length, ◌≡◌, ◌≢◌, refl, ◌∙◌, arith,
  ◌⊎◌, inl, inr, Bool-cases,
}
use natsie.Base.Result.{Result, ok, Result-cases}
use natsie.Go.Time.{Time, format_stamp}
use natsie.Bot.{Schedule, build_manifest}
use natsie.Bot.Dispatch.{World, log_event, post, post_owner, post_owners, sinks_of, Dispatcher}
use natsie.Bot.Run.{Settings, run_scan, propose, announce, scanned, auto_delete}
use natsie.Cleanup.{apply}
use natsie.Cleanup.Nats.{Server}
use natsie.Cleanup.Guarded.{IsGuarded, apply-IsGuarded}
use natsie.Manifest.{Manifest, Entry, version}
use natsie.Manifest.RoundTrip.{RoundTrips}
use natsie.Scanner.Classify.{Row}
use natsie.Approve.{Mac}
use natsie.Owners.{group, group_of}
use natsie.Audit.{of_kind}
use natsie.Go.Os.{Fs}
use natsie.Store.{Error, get, put}
use natsie.Store.Laws.{get-put}

abbrev pub Same : {S : Server} → World S → World S → Type 0
Same v w = (v.fs ≡ w.fs) × (v.session ≡ w.session)

post_owner-Same :
    {S : Server} (s : Schedule) (o : String) (sinks : List String) (es : List Entry) (w : World S)
    → Same (post_owner s o sinks es w) w
unfolding post_owner
post_owner-Same s o [] es w = (refl, refl)
post_owner-Same s o (n ∷ ns) [] w = (refl, refl)
post_owner-Same s o (n ∷ ns) (e ∷ es) w = (refl, refl)

post_owners-Same :
    {S : Server} (d : Dispatcher) (s : Schedule) (es : List Entry) (order : List String)
    (w : World S)
    → Same (post_owners d s es order w) w
unfolding post_owners
post_owners-Same d s es [] w = (refl, refl)
post_owners-Same d s es (o ∷ order) w =
    let (f, g) = post_owner-Same s o (sinks_of o d.per_owner) (group_of o (group d.router es)) w in
    let (h, k) =
      post_owners-Same d s es order
        (post_owner s o (sinks_of o d.per_owner) (group_of o (group d.router es)) w) in
    (h ∙ f, k ∙ g)

post-Same :
    {S : Server} (mac : Mac) (d : Dispatcher) (s : Schedule) (m : Manifest)
    (id base_url key : String) (order : List String) (w : World S)
    → Same (post mac d s m id base_url key order w) w
unfolding post
post-Same mac d s m id base_url key order w = ground (arith, post_owners-Same d s m.entries order w)

module _ (S : Server) (b : Settings) (s : Schedule) (m : Manifest) (w : World S) where
  -- The world in which `announce` posts, and what it has stored by then.
  abbrev pub stored_as : Time → Result Error (Unit {0}) × Fs
  stored_as now = put b.yaml b.store w.fs (s.name <> ("-" <> format_stamp now)) m

  pub announce-Same :
      (order : List String) (now : Time)
      → ((announce b order now s m w).1.session ≡ w.session)
        × ((announce b order now s m w).1.fs ≡ (stored_as now).1)
        × ((announce b order now s m w).0.1 ≡ none → (stored_as now).0 ≡ ok tt)
  unfolding announce
  announce-Same order now = elim (Result-cases (stored_as now).0) [
    | inl (tt, f) ↦ ground (
      arith,
      post-Same b.mac b.dispatch s m (s.name <> ("-" <> format_stamp now)) b.base_url b.signing_key
          order
          (log_event
            (record (of_kind "scan") {
              schedule = s.name;
              manifest = s.name <> ("-" <> format_stamp now);
              entries = length m.entries;
            })
            (record w { fs = (stored_as now).1 })),
    )
    | inr (x, f) ↦ ground arith
  ]

  announce-stored :
      (order : List String) (now : Time)
      → RoundTrips b.yaml
      → m.version ≡ version
      → (announce b order now s m w).0.1 ≡ none
      → get b.yaml b.store (announce b order now s m w).1.fs (s.name <> ("-" <> format_stamp now))
        ≡ ok m
  announce-stored order now y v e =
      let (_, files, done) = announce-Same order now in
      rw files (
        get-put b.yaml b.store w.fs (s.name <> ("-" <> format_stamp now)) m y v
          (ground (arith, done e)))

  auto_delete-session :
      (clusters : List String)
      → ((auto_delete S b clusters s m w).1.fs ≡ w.fs)
        × ((auto_delete S b clusters s m w).1.session
            ≡ (apply S clusters m (record { dry_run = false; protect = b.guard }) w.session).0)
  unfolding auto_delete
  auto_delete-session clusters = ground arith

  -- The three ways of a proposal: nothing to do, a deletion at once, or an announcement.
  pub propose_cases :
      (clusters order : List String) (now : Time)
      → let r = propose S b clusters order now s m w in
        ((r.0 ≡ (0, none)) × (r.1.fs ≡ w.fs) × (r.1.session ≡ w.session))
        ⊎ ((s.auto_delete ≡ true) × (r ≡ auto_delete S b clusters s m w))
        ⊎ ((s.auto_delete ≡ false) × (r ≡ announce b order now s m w))
  unfolding propose
  propose_cases clusters order now = by_entries m.entries refl
    where
      by_entries :
          (es : List Entry)
          → m.entries ≡ es
          → let r = propose S b clusters order now s m w in
            ((r.0 ≡ (0, none)) × (r.1.fs ≡ w.fs) × (r.1.session ≡ w.session))
            ⊎ ((s.auto_delete ≡ true) × (r ≡ auto_delete S b clusters s m w))
            ⊎ ((s.auto_delete ≡ false) × (r ≡ announce b order now s m w))
      by_entries [] f = inl (ground arith)
      by_entries (x ∷ es) f = elim (Bool-cases s.auto_delete) [
        | inl a ↦ inr (inl (a, ground arith))
        | inr a ↦ inr (inr (a, ground arith))
      ]

pub run_scan-scanned :
    (S : Server) (b : Settings) (clusters order : List String) (at generated now : Time)
    (s : Schedule) (w : World S) (rows : List Row)
    → scanned b at s ≡ ok rows
    → run_scan S b clusters order at generated now s w
      ≡ propose S b clusters order now s (build_manifest b.short generated s rows) w
unfolding run_scan
run_scan-scanned S b clusters order at generated now s w rows f = ground (arith, f)

-- A scheduled scan without auto-delete sends no request to the clusters and learns nothing of them
-- but by its scan: the session is as it was.
pub run_scan-gated :
    (S : Server) (b : Settings) (clusters order : List String) (at generated now : Time)
    (s : Schedule) (w : World S)
    → s.auto_delete ≡ false
    → (run_scan S b clusters order at generated now s w).1.session ≡ w.session
unfolding run_scan
run_scan-gated S b clusters order at generated now s w gated =
    elim (Result-cases (scanned b at s)) [
      | inr (x, f) ↦ ground arith
      | inl (rows, f) ↦
          let m = build_manifest b.short generated s rows in
          elim (propose_cases S b s m w clusters order now) [
            | inl (r, _, same) ↦ rw (f, run_scan) same
            | inr (inl (auto, _)) ↦ absurd (ground arith)
            | inr (inr (_, e)) ↦
                rw (run_scan-scanned S b clusters order at generated now s w rows f ∙ e)
                  (announce-Same S b s m w order now).0
          ]
    ]

-- When a scheduled scan without auto-delete reports entries and no error, the store has the manifest
-- of the rows of its scan under the id, if the YAML package reads back what it wrote.
pub get-run_scan :
    (S : Server) (b : Settings) (clusters order : List String) (at generated now : Time)
    (s : Schedule) (w : World S)
    → RoundTrips b.yaml
    → s.auto_delete ≡ false
    → (run_scan S b clusters order at generated now s w).0.1 ≡ none
    → (run_scan S b clusters order at generated now s w).0.0 ≢ 0
    → (rows : List Row) × (scanned b at s ≡ ok rows)
      × (get b.yaml b.store
            (run_scan S b clusters order at generated now s w).1.fs
            (s.name <> ("-" <> format_stamp now))
          ≡ ok (build_manifest b.short generated s rows))
unfolding run_scan build_manifest
get-run_scan S b clusters order at generated now s w y gated fine some_found =
    elim (Result-cases (scanned b at s)) [
      | inr (x, f) ↦ absurd (ground arith)
      | inl (rows, f) ↦
          let m = build_manifest b.short generated s rows in
          elim (propose_cases S b s m w clusters order now) [
            | inl (r, _, same) ↦ absurd (ground arith)
            | inr (inl (auto, _)) ↦ absurd (ground arith)
            | inr (inr (_, e)) ↦
                let same : run_scan S b clusters order at generated now s w
                    ≡ announce b order now s m w =
                  run_scan-scanned S b clusters order at generated now s w rows f ∙ e in
                (rows, f, rw same (announce-stored S b s m w order now y refl (rw same at fine)))
          ]
    ]

-- A scheduled scan with auto-delete leaves the store alone and, if no request had gone out before,
-- sends only deletions that are guarded as those of `Apply` are, with the bot's protector and the
-- manifest of the rows of its scan.
pub run_scan-IsGuarded :
    (S : Server) (b : Settings) (clusters order : List String) (at generated now : Time)
    (s : Schedule) (w : World S)
    → w.session.log ≡ []
    → s.auto_delete ≡ true
    → let w' = (run_scan S b clusters order at generated now s w).1 in
      (w'.fs ≡ w.fs)
      × ((w'.session ≡ w.session)
          ⊎ ((rows : List Row) × (scanned b at s ≡ ok rows)
              × IsGuarded
                  (record { dry_run = false; protect = b.guard })
                  (build_manifest b.short generated s rows)
                  w'.session.log))
unfolding run_scan
run_scan-IsGuarded S b clusters order at generated now s w fresh auto =
    elim (Result-cases (scanned b at s)) [
      | inr (x, f) ↦ (ground arith, inl (ground arith))
      | inl (rows, f) ↦
          let m = build_manifest b.short generated s rows in
          elim (propose_cases S b s m w clusters order now) [
            | inl (_, files, same) ↦ (ground arith, inl (ground arith))
            | inr (inr (gated, _)) ↦ absurd (ground arith)
            | inr (inl (_, e)) ↦
                let (files, session) = auto_delete-session S b s m w clusters in
                let same : run_scan S b clusters order at generated now s w
                    ≡ auto_delete S b clusters s m w =
                  run_scan-scanned S b clusters order at generated now s w rows f ∙ e in
                (
                  rw same files,
                  inr (
                    rows,
                    f,
                    rw (same, session)
                        (apply-IsGuarded S clusters m
                          (record { dry_run = false; protect = b.guard }) w.session fresh),
                  ),
                )
          ]
    ]
