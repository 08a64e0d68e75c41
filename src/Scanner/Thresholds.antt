-- ===== src/Scanner/Thresholds.antt =====
-- Which rows `Scan` reports.
use natsie.Base.{In, if◌then◌else◌, List, Option, string_eq, ◌≡◌, All, ◌⊎◌}
use natsie.Base.Int.{◌≤ℤ◌}
use natsie.Go.Time.{Time}
use natsie.Scanner.Api.{JetStream}
use natsie.Scanner.Classify.{Row, Options, active, error, status_eq}
use natsie.Scanner.Scan.{is_stream_error, with_peer}

-- An unreadable stream, an ACTIVE consumer, or one with at least MinPending messages pending.
abbrev pub IsReportable : Options → Row → Type 0
IsReportable opts r =
    ((r.status ≡ error) × (r.consumer ≡ ""))
    ⊎ (r.status ≡ active)
    ⊎ (opts.min_pending ≤ℤ r.num_pending)

-- The row as it is reported: with the peer's status, but for the row of an unreadable stream.
abbrev pub as_reported : Option JetStream → Time → Options → Row → Row
as_reported peer now opts r = if is_stream_error r then r else with_peer peer now opts r

-- Each of the rows that is reportable is among the reported ones.
abbrev pub AreReported : Option JetStream → Time → Options → List Row → List Row → Type 0
AreReported peer now opts reported =
    All λ r. IsReportable opts r → In (as_reported peer now opts r) reported
