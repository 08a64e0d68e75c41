-- ===== src/Tests/ScanRuns.antt =====
-- The scanner on a few consumers, servers and streams.
use natsie.Base.{
  String, ◌<◌, ◌+◌, true, false, List, [], ◌∷◌, none, some, ◌≡◌, ◌≢◌, ◌↔◌, refl, arith, string_eq,
  ℕ_eq, All, bool_eq,
}
use natsie.Base.Int.{pos}
use natsie.Base.Result.{Result, ok}
use natsie.Go.Sort.{sort_slice}
use natsie.Go.Time.{Time, sub}
use natsie.Cleanup.{is_active}
use natsie.Scanner.Api.{ConsumerState, JetStream, limits, loaded, to_int64}
use natsie.Scanner.Classify.{
  Row, Options, Status, active, stale, error_row, status_of, classify, filter_subject, status_eq,
}
use natsie.Scanner.Liveness.{
  IsQuiet, info_of, status_of-stale_iff, stale-is_active, new_consumer_stale,
}
use natsie.Protect.{reason}
use natsie.Scanner.Scan.{scan, report}
use natsie.Scanner.Classify.{meets_thresholds}
use natsie.Scanner.Renames.{detect_renames}
use natsie.Scanner.Renames.Sound.{Pointwise, Annotated, detect_renames-Annotated}
use natsie.Scanner.Peers.{Group, aggregate_peers}
use natsie.Scanner.Peers.Verdict.{
  IsCounted, GhostIff, aggregate_peers-AllCounted, aggregate_peers-GhostIff, IsReported,
}
use natsie.Natsctx.{Conn}
use natsie.Scanner.Owner.{
  OwnerMatch, resolve_owner, conns_matches, streams_matches, stream_matches, consumer_matches,
  owner,
}
use natsie.Scanner.Owner.Latest.{IsOwnerOf, resolve_owner-IsOwnerOf}
use natsie.Scanner.StreamReport.Counts
use natsie.Scanner.StreamReport.Counts.{places_at, placement_skew-counts}
use natsie.Scanner.Peers.Counts.{leads_of, replicas_of, any_replica}
use natsie.Scanner.StreamReport.{StreamReportRow, placement_skew}
use natsie.Scanner.StreamReport.Skew.{total_replicas, total_leads, places, leader_places}

abbrev quiet : ConsumerState
quiet = record {
  num_pending = 5;
  num_waiting = pos 0;
  push_bound = false;
  ack_last = some 100;
  created = 50;
  filter_subject = "orders.new";
  filter_subjects = [];
  metadata = [];
}

abbrev busy : ConsumerState
busy = record quiet { num_waiting = pos 2 }

abbrev fresh : ConsumerState
fresh = record quiet { ack_last = none; created = 999 }

quiet-is_stale : status_of 1000 (pos 60) quiet ≡ stale
unfolding status_of sub to_int64 ℕ_eq
quiet-is_stale = refl

status_of-stale_iff_example : (status_of 1000 (pos 60) quiet ≡ stale) ↔ IsQuiet 1000 (pos 60) quiet
status_of-stale_iff_example = status_of-stale_iff 1000 (pos 60) quiet

stale-is_active_example : is_active (info_of quiet) 1001 ≡ ""
stale-is_active_example =
    stale-is_active 1000 1001 (pos 60) quiet (omega arith) (omega arith) quiet-is_stale

five : to_int64 5 ≢ pos 0
unfolding to_int64
five e = ground arith

new_consumer_stale_example :
    (status_of 1000 (pos 60) fresh ≡ stale) × (is_active (info_of fresh) 1001 ≡ "")
new_consumer_stale_example =
    new_consumer_stale 1000 1001 (pos 60) fresh refl (omega arith) refl five

abbrev row : String → Status → Time → Row
row c s ack = record (error_row "a" "ORDERS" c) {
  status = s;
  last_ack = ack;
  filter_subject = "orders.new";
}

abbrev rows : List Row
rows = row "old" stale 100 ∷ row "new" active 900 ∷ []

detect_renames-Annotated_example : Pointwise (Annotated rows) rows (detect_renames rows)
detect_renames-Annotated_example = detect_renames-Annotated rows

abbrev groups : List Group
groups =
    record {
      name = "ORDERS";
      leader = "n1";
      replicas =
          record { name = "n1"; current = true; offline = false }
          ∷ record { name = "n2"; current = false; offline = true }
          ∷ [];
    }
    ∷ []

aggregate_peers-AllCounted_example : All (IsCounted "a" groups) (aggregate_peers "a" groups)
aggregate_peers-AllCounted_example = aggregate_peers-AllCounted "a" groups

aggregate_peers-GhostIff_example :
    (IsReported "n2" (aggregate_peers "a" groups)
      ↔ (0 < leads_of "n2" groups + replicas_of any_replica "n2" groups))
    × All (GhostIff groups) (aggregate_peers "a" groups)
aggregate_peers-GhostIff_example = aggregate_peers-GhostIff "a" groups "n2"

abbrev cluster : JetStream
cluster = record {
  name = "a";
  stream_names = ok ("ORDERS" ∷ []);
  load_stream = λ s. some (record {
    retention = limits;
    replicas = pos 1;
    max_age = pos 0;
    max_bytes = pos 0;
    max_msgs = pos 0;
  });
  stream_state = λ s. none;
  stream_cluster = λ s. none;
  consumer_names = λ s. some ("new" ∷ []);
  load_consumer = λ s c. loaded;
  latest_state = λ s c. some busy;
  consumer_cluster = λ s c. none;
}

abbrev options : Options
options = record { stream = ""; min_pending = pos 0; min_idle = pos 60; protect = none }

abbrev found : OwnerMatch
found = record {
  cluster = "a";
  stream = "ORDERS";
  consumer = "new";
  status = active;
  num_pending = pos 5;
  last_ack = 100;
  idle = pos 900;
}

abbrev conns : List (Conn (Result String JetStream))
conns = record { conn = ok cluster; name = "a" } ∷ []

resolved : resolve_owner conns 1000 options (λ c s. none) "orders.new" ≡ (found ∷ [], none)
unfolding resolve_owner conns_matches streams_matches stream_matches consumer_matches classify
    status_of filter_subject string_eq sort_slice to_int64 ℕ_eq sub
resolved = refl

resolve_owner-IsOwnerOf_example : IsOwnerOf (found ∷ []) (owner (found ∷ []))
resolve_owner-IsOwnerOf_example =
    resolve_owner-IsOwnerOf conns 1000 options (λ c s. none) "orders.new" (found ∷ []) resolved

abbrev placed : List StreamReportRow
placed =
    record {
      cluster = "a";
      stream = "ORDERS";
      retention = limits;
      replicas = pos 2;
      max_age = pos 0;
      max_bytes = pos 0;
      max_msgs = pos 0;
      messages = 1;
      bytes = 1;
      consumers = 1;
      leader = "n1";
      peers = "n1" ∷ "n2" ∷ [];
    }
    ∷ []

placement_skew-counts_example :
    (Counts.IsReported "n1" (placement_skew placed) ↔ (0 < places_at "n1" placed))
    × All (Counts.IsCounted placed) (placement_skew placed)
    × (total_replicas (placement_skew placed) ≡ places placed)
    × (total_leads (placement_skew placed) ≡ leader_places placed)
placement_skew-counts_example = placement_skew-counts placed "n1"

abbrev scanned_row : Row
scanned_row = record (error_row "a" "ORDERS" "new") {
  status = active;
  num_pending = pos 5;
  num_waiting = pos 2;
  last_ack = 100;
  idle = pos 900;
  filter_subject = "orders.new";
}

scanned : scan cluster none 1000 options (λ s. none) ≡ ok (scanned_row ∷ [])
unfolding scan report classify status_of filter_subject string_eq sort_slice to_int64 ℕ_eq sub
    detect_renames status_eq meets_thresholds reason
scanned = refl
