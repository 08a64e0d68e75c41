-- ===== src/Bot/Jobs.antt =====
-- serve.go: the stream check, and the jobs that the scheduler runs.
use natsie.Base.{
  ℕ, String, ◌<>◌, List, [], ◌∷◌, Option, none, some, ◌==◌, string_eq, ℕ_eq, if◌then◌else◌, length,
}
use natsie.Base.Result.{ok, err}
use natsie.Go.Float.{one_decimal}
use natsie.Go.Strings.{itoa, itoa_int}
use natsie.Go.Time.{Time, sub}
use natsie.Audit.{of_kind}
use natsie.Cleanup.Nats.{Server}
use natsie.Metrics.{Metrics, observe_scan}
use natsie.Scanner.Streams.{StreamRow, scan_unlimited_streams}
use natsie.Bot.{
  Schedule, kind_consumer_stale, kind_stream_unlimited, kind_peer_check, kind_stream_report,
}
use natsie.Bot.Messages.{Message, lines_upto}
use natsie.Bot.Dispatch.{World, log_event, send}
use natsie.Bot.Run.{Settings, run_scan, run_peer_check, run_stream_report}

unfoldable pub stream_line : StreamRow → String
stream_line r =
    "- `"
    <> (r.stream
        <> ("` (R="
            <> (itoa_int r.replicas
                <> (", msgs="
                    <> (itoa r.messages <> (", " <> (one_decimal r.bytes 1048576 <> " MiB)\n")))))))

-- `buildStreamCheckMessage`
unfoldable pub build_stream_check_message : Schedule → List StreamRow → Message
unfolding stream_line
build_stream_check_message s rows = record {
  title = "natsie unlimited streams (" <> (s.name <> ")");
  body =
      "Schedule **"
      <> (s.name
          <> ("** found "
              <> (itoa (length rows)
                  <> (" stream"
                      <> ((if length rows == 1 then "" else "s")
                          <> (" with no retention limit on `"
                              <> (s.context
                                  <> ("`:\n"
                                      <> (lines_upto stream_line 20 rows
                                          <> "\n_No MaxAge/MaxBytes/MaxMsgs — these grow until disk or memory pressure. Set a limit if unbounded growth isn't intended._")))))))));
  manifest_id = "";
  link = "";
}

-- `runStreamCheck`
unfoldable pub run_stream_check :
    (S : Server) → Settings → Schedule → World S → (ℕ × Option String) × World S
unfolding build_stream_check_message
run_stream_check S b s w = elim (b.dial s.context) [
  | err e ↦ ((0, some ("connect " <> (s.context <> (": " <> e)))), w)
  | ok js ↦
      let (rows, e) = scan_unlimited_streams js b.ctx in
      let w1 =
        log_event (record (of_kind "stream-check") { schedule = s.name; entries = length rows })
          w in
      elim e [
        | some x ↦ ((0, some ("stream check: " <> x)), w)
        | none ↦ (
          (length rows, none),
          elim rows [
            | [] ↦ w1
            | r ∷ rs ↦ send b.dispatch.global (build_stream_check_message s (r ∷ rs)) w1
          ],
        )
      ]
]

-- The readings of the clock of a job: its start, those of the run, and its end.
pub record Clock : Type 0 where
  pub start : Time
  pub at : Time
  pub generated : Time
  pub now : Time
  pub done : Time

-- The kind under which the metrics of a job go.
unfoldable pub kind_of : Schedule → String
kind_of s =
    if s.kind == kind_stream_unlimited
    then kind_stream_unlimited
    else if s.kind == kind_peer_check
    then kind_peer_check
    else if s.kind == kind_stream_report
    then kind_stream_report
    else kind_consumer_stale

module _ (S : Server) (b : Settings) (clusters order : List String) (c : Clock) where
  -- The switch over the kinds in `serve`, with the run of each job.
  unfoldable pub run_kind : Schedule → World S → (ℕ × Option String) × World S
  unfolding run_stream_check
  run_kind s w =
      if s.kind == kind_stream_unlimited
      then run_stream_check S b s w
      else if s.kind == kind_peer_check
      then run_peer_check S b s w
      else if s.kind == kind_stream_report
      then run_stream_report S b s w
      else run_scan S b clusters order c.at c.generated c.now s w

  -- `buildScanJob`, `buildStreamCheckJob`, `buildPeerCheckJob` and `buildStreamReportJob`: what the
  -- `Run` of a job does. The result is its error.
  unfoldable pub run_job : Schedule → World S × Metrics → Option String × (World S × Metrics)
  unfolding run_kind kind_of
  run_job s (w, m) =
      let (r, w') = run_kind s w in
      (r.1, (w', observe_scan s.name (kind_of s) r.0 (sub c.done c.start) r.1 m))
