-- ===== src/Tests/CleanupRuns.antt =====
-- Cleanup and the listener over the server in memory.
use natsie.Base.{
  String, true, false, [], ◌∷◌, none, some, ◌≡◌, refl, ◌⊎◌, inl, inr, string_eq, ℕ_eq,
}
use natsie.Base.Int.{pos}
use natsie.Go.Strings.{itoa}
use natsie.Go.Os.{folder, file}
use natsie.Manifest.{Manifest}
use natsie.Cleanup.Nats.{
  Target, ConsumerInfo, Session, fetched, fetch_consumer_info, delete_consumer, delete_error,
}
use natsie.Cleanup.{
  Options, apply, apply_clusters, apply_cluster, apply_on_cluster, apply_entry, by_cluster,
  entries_of, is_active,
}
use natsie.Cleanup.Guarded.{IsGuarded, apply-IsGuarded}
use natsie.Cleanup.Tally.{IsTallied, apply-IsTallied}
use natsie.Cleanup.Survival.{IsSpared, apply_spares}
use natsie.Cleanup.Completion.{apply_deletes}
use natsie.Cleanup.Cases.{IsIdle}
use natsie.Approve.{Listener, World, do_approval}
use natsie.Approve.Gate.{IsAuthorized, do_approval-IsGuarded}
use natsie.Protect.{reason}
use natsie.Tests.Data.{
  old_and_new, one_document, memory, memory-IsLawful, memory-IsResponsive, Consumers, entry,
}
use natsie.Tests.Data

abbrev idle : ConsumerInfo
idle = record {
  error = none;
  push_bound = false;
  num_waiting = pos 0;
  metadata = [];
  last_active = some 900;
}

abbrev bound : ConsumerInfo
bound = record {
  error = none;
  push_bound = true;
  num_waiting = pos 0;
  metadata = [];
  last_active = none;
}

abbrev target : String → Target
target c = record { cluster = "a"; stream = "ORDERS"; consumer = c }

abbrev session : Session memory
session = record { state = (target "old", idle) ∷ (target "new", bound) ∷ []; log = [] }

abbrev options : Options
options = record { dry_run = false; protect = none }

apply-IsGuarded_example :
    IsGuarded options old_and_new (apply memory ("a" ∷ []) old_and_new options session).0.log
apply-IsGuarded_example = apply-IsGuarded memory ("a" ∷ []) old_and_new options session refl

apply-IsTallied_example : IsTallied (apply memory ("a" ∷ []) old_and_new options session).1
apply-IsTallied_example = apply-IsTallied memory ("a" ∷ []) old_and_new options session

new-IsSpared : IsSpared old_and_new options (target "new") (Data.find session.state (target "new"))
unfolding string_eq
new-IsSpared = inr (inr (bound, refl, inr (inl refl)))

apply_spares_example :
    Data.find (apply memory ("a" ∷ []) old_and_new options session).0.state (target "new")
    ≡ Data.find session.state (target "new")
apply_spares_example =
    apply_spares memory Data.find memory-IsLawful ("a" ∷ []) old_and_new options session
      (target "new") new-IsSpared

old-IsIdle : IsIdle options 1000 (target "old") idle
unfolding is_active reason ℕ_eq
old-IsIdle = record { unprotected = refl; inactive = refl }

apply_deletes_example :
    Data.find (apply memory ("a" ∷ []) old_and_new options session).0.state (target "old") ≡ none
unfolding string_eq
apply_deletes_example =
    apply_deletes memory Data.find memory-IsLawful memory-IsResponsive ("a" ∷ []) old_and_new
      options session (target "old") idle (entry "old", inl refl, refl, refl) (inl refl) refl refl
      refl old-IsIdle

one_deleted : (apply memory ("a" ∷ []) old_and_new options session).1.deleted ≡ 1
unfolding apply apply_clusters apply_cluster apply_on_cluster apply_entry by_cluster entries_of
    is_active fetched itoa string_eq ℕ_eq fetch_consumer_info reason delete_consumer delete_error
one_deleted = refl

abbrev listener : Listener
listener = record {
  store = record { dir = "/m" };
  signing_key = "key";
  can_connect = true;
  has_metrics = false;
  protect = none;
}

abbrev mac : String → String → String
mac key text = "good"

abbrev world : World memory
world = record {
  fs = record { nodes = ("/m", folder) ∷ ("/m/id.yaml", file "doc") ∷ []; faults = λ p. none };
  session = session;
  audit = record { enabled = true; events = [] };
  observed = [];
}

do_approval-IsGuarded_example :
    let w' =
      (do_approval memory
        (one_document old_and_new)
        mac
        listener
        ("a" ∷ [])
        2000
        "::1"
        "id"
        "good"
        world).1 in
    (w'.fs ≡ world.fs)
    × ((w'.session ≡ world.session)
        ⊎ ((m : Manifest) × IsAuthorized (one_document old_and_new) mac listener "id" "good" world m
            × IsGuarded (record { dry_run = false; protect = listener.protect }) m w'.session.log))
do_approval-IsGuarded_example =
    do_approval-IsGuarded memory (one_document old_and_new) mac listener ("a" ∷ []) 2000 "::1" "id"
      "good" world refl
