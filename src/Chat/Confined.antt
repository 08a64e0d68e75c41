-- ===== src/Chat/Confined.antt =====
-- What a command of the chat changes.
use natsie.Base.{
  ◌<◌, String, true, List, [], ◌∷◌, none, ◌==◌, ◌≡◌, ◌⊎◌, inl, inr, refl, arith, sym, string_eq,
  ℕ_eq, Bool-cases, count_if, ==→eq, subst,
}
use natsie.Base.Result.{ok, Result-cases}
use natsie.Bot.{build_scan_manifest}
use natsie.Manifest.{Manifest}
use natsie.Natsctx.{Conn, connect}
use natsie.Scanner.Classify.{Row, status_eq}
use natsie.Scanner.Scan
use natsie.Store.{put}
use natsie.Chat.{dispatch, first_or}
use natsie.Chat.Api.{Deps, Clock, World, Nats, Manager}
use natsie.Chat.Scan.{propose, scan, scan_options, is_stale, chat_id}

module _ (d : Deps) (clock : Clock) where
  -- The rows are those of a scan of the context, over a connection to it.
  pub record IsScanOf (w : World) (ctx stream : String) (rows : List Row) : Type 0 where
    pub nc : Conn Nats
    pub mgr : Manager
    pub dialed : connect d.host w.fs ctx ≡ ok nc
    pub managed : nc.conn.manager ≡ ok mgr
    pub scanned :
        natsie.Scanner.Scan.scan
          (record mgr.scanned { name = ctx })
          none
          clock.now
          (scan_options stream)
          d.ctx
        ≡ ok rows

  abbrev pub proposal : String → String → List Row → Manifest
  proposal ctx stream rows =
      build_scan_manifest d.short clock.generated ctx (scan_options stream) rows

  -- The files are as they were, or have the manifest of a scan with stale rows put in.
  abbrev pub IsProposal : World → List String → World → Type 0
  IsProposal w argv w' =
      (w'.fs ≡ w.fs)
      ⊎ ((ctx : String) × (rest : List String) × (rows : List Row) × (argv ≡ "scan" ∷ ctx ∷ rest)
          × IsScanOf w ctx (first_or "" rest) rows
          × (0 < count_if is_stale rows)
          × (w'.fs
              ≡ (put d.yaml d.store w.fs (chat_id clock.stamped ctx)
                  (proposal ctx (first_or "" rest) rows)).1))

  propose-fs :
      (ctx stream : String) (rows : List Row) (w : World)
      → ((propose d clock ctx stream rows w).1.fs ≡ w.fs)
        ⊎ ((0 < count_if is_stale rows)
            × ((propose d clock ctx stream rows w).1.fs
                ≡ (put d.yaml d.store w.fs
                    (chat_id clock.stamped ctx)
                    (proposal ctx stream rows)).1))
  unfolding propose ℕ_eq
  propose-fs ctx stream rows w =
      let id = chat_id clock.stamped ctx in
      elim (Bool-cases (count_if is_stale rows == 0)) [
        | inl none_stale ↦ inl (rw (none_stale, propose) refl)
        | inr some_stale ↦
            let there : 0 < count_if is_stale rows = ground (arith, some_stale) in
            elim (Result-cases (put d.yaml d.store w.fs id (proposal ctx stream rows)).0) [
              | inl (_, e) ↦ inr (there, rw (some_stale, e, propose) refl)
              | inr (_, e) ↦ inr (there, rw (some_stale, e, propose) refl)
            ]
      ]

  scan-IsProposal :
      (ctx : String) (rest : List String) (w : World)
      → IsProposal w ("scan" ∷ ctx ∷ rest) (scan d clock ctx (first_or "" rest) w).1
  unfolding scan
  scan-IsProposal ctx rest w = elim (Result-cases (connect d.host w.fs ctx)) [
    | inr (e, c) ↦ inl (rw (c, scan) refl)
    | inl (nc, c) ↦ elim (Result-cases nc.conn.manager) [
      | inr (e, g) ↦ inl (rw (c, g, scan) refl)
      | inl (mgr, g) ↦ rows_of nc mgr c g
    ]
  ]
    where
      stream : String
      stream = first_or "" rest

      rows_of :
          (nc : Conn Nats) (mgr : Manager)
          → connect d.host w.fs ctx ≡ ok nc
          → nc.conn.manager ≡ ok mgr
          → IsProposal w ("scan" ∷ ctx ∷ rest) (scan d clock ctx stream w).1
      rows_of nc mgr c g =
          elim (Result-cases (
            natsie.Scanner.Scan.scan (record mgr.scanned { name = ctx }) none clock.now
              (scan_options stream) d.ctx)) [
                | inr (e, s) ↦ inl (rw (c, g, s, scan) refl)
                | inl (rows, s) ↦ elim (propose-fs ctx stream rows w) [
                  | inl same ↦ inl (rw (c, g, s, scan) same)
                  | inr (some_stale, stored) ↦
                      let known : IsScanOf w ctx stream rows = record {
                        nc = nc;
                        mgr = mgr;
                        dialed = c;
                        managed = g;
                        scanned = s;
                      } in
                      inr (ctx, rest, rows, refl, known, some_stale, rw (c, g, s, scan) stored)
                ]
              ]

-- A command of the chat changes no file, unless it is a scan of a context that finds stale consumers.
-- Then the only change is that of storing, under an id that begins with `chat-`, the context's name and
-- the time, the manifest that is made of the rows of that scan.
pub dispatch-IsProposal :
    (d : Deps) (clock : Clock) (trigger : String) (argv : List String) (w : World)
    → IsProposal d clock w argv (dispatch d clock trigger argv w).1
unfolding dispatch
dispatch-IsProposal d clock trigger [] w = inl refl
dispatch-IsProposal d clock trigger (cmd ∷ argv) w = elim (Bool-cases (cmd == "scan")) [
  | inr e ↦ inl (rw (e, dispatch) refl)
  | inl e ↦ at_scan argv e
]
  where
    at_scan :
        (argv : List String)
        → (cmd == "scan") ≡ true
        → IsProposal d clock w (cmd ∷ argv) (dispatch d clock trigger (cmd ∷ argv) w).1
    at_scan [] e = inl (rw (e, dispatch) refl)
    at_scan (ctx ∷ rest) e =
        let named : cmd ≡ "scan" = ==→eq cmd "scan" e in
        rw (e, dispatch)
          (subst
            (λ c. IsProposal d clock w (c ∷ ctx ∷ rest) (scan d clock ctx (first_or "" rest) w).1)
            (sym named) (scan-IsProposal d clock ctx rest w))
