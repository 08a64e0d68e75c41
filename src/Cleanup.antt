-- ===== src/Cleanup.antt =====
-- internal/cleanup/cleanup.go: a manifest applied to live clusters. The connections are those of
-- Cleanup/Nats; every request that goes out is kept in the log of the session.
pub mod Nats
pub mod Rule
pub mod Cases
pub mod Tally
pub mod Guarded
pub mod Survival
pub mod Grouping
pub mod Completion
use natsie.Base.{
  ℕ, ◌+◌, map, ◌!=◌, String, ◌<>◌, Bool, true, false, List, [], ◌∷◌, ◌++◌, Option, none, some, ◌==◌,
  contains, string_eq, ℕ_eq, if◌then◌else◌,
}
use natsie.Base.Int.{ℤ, pos, negsuc, pos_part, ltb_ℤ}
use natsie.Base.Result.{Result, ok, err}
use natsie.Go.Strings.{itoa}
use natsie.Go.Time.{Time, is_after, format_rfc3339}
use natsie.Protect.{Protector, reason}
use natsie.Manifest.{Manifest, Entry}
use Nats.{
  Target, ConsumerInfo, Server, Request, dialed, closed, missing, broken, found, Session,
  fetch_consumer_info, delete_consumer,
}

pub data Action : Type 0 where
  deleted would gone skip active protect failed conn_fail : Action

pub record Event : Type 0 where
  pub target : Target
  pub action : Action
  pub detail : String

-- `Result`; the events are in the order of the slice.
pub record Outcome : Type 0 where
  pub deleted : ℕ
  pub skipped : ℕ
  pub preserved : ℕ
  pub protected : ℕ
  pub gone : ℕ
  pub failed : ℕ
  pub events : List Event

-- `Options`, without the connector, which belongs to the server.
pub record Options : Type 0 where
  pub dry_run : Bool
  pub protect : Option Protector

abbrev pub empty : Outcome
empty = record {
  deleted = 0;
  skipped = 0;
  preserved = 0;
  protected = 0;
  gone = 0;
  failed = 0;
  events = [];
}

-- `(*Result).Summary`
unfoldable pub summary : Outcome → String
summary r =
    itoa r.deleted
    <> " deleted, "
    <> itoa r.preserved
    <> " preserved (active), "
    <> itoa r.protected
    <> " protected, "
    <> itoa r.gone
    <> " already gone, "
    <> itoa r.skipped
    <> " skipped, "
    <> itoa r.failed
    <> " failed"

-- `isActive`: the reason to preserve the consumer, or the empty text.
unfoldable pub is_active : ConsumerInfo → Time → String
is_active info at =
    if info.push_bound
    then "push_bound=true"
    else if ltb_ℤ (pos 0) info.num_waiting
    then "num_waiting=" <> itoa (pos_part info.num_waiting)
    else elim info.last_active [
      | none ↦ ""
      | some t ↦ if is_after t at then "acked since manifest at " <> format_rfc3339 t else ""
    ]

abbrev pub target_of : Entry → Target
target_of e = record { cluster = e.cluster; stream = e.stream; consumer = e.consumer }

abbrev pub event : Target → Action → String → Event
event t a d = record { target = t; action = a; detail = d }

-- One branch of the loop body: the event is appended and its counter goes up by one.
abbrev pub count_deleted : Event → Outcome → Outcome
count_deleted ev r = record r { deleted = r.deleted + 1; events = r.events ++ (ev ∷ []) }

abbrev pub count_skipped : Event → Outcome → Outcome
count_skipped ev r = record r { skipped = r.skipped + 1; events = r.events ++ (ev ∷ []) }

abbrev pub count_preserved : Event → Outcome → Outcome
count_preserved ev r = record r { preserved = r.preserved + 1; events = r.events ++ (ev ∷ []) }

abbrev pub count_protected : Event → Outcome → Outcome
count_protected ev r = record r { protected = r.protected + 1; events = r.events ++ (ev ∷ []) }

abbrev pub count_gone : Event → Outcome → Outcome
count_gone ev r = record r { gone = r.gone + 1; events = r.events ++ (ev ∷ []) }

abbrev pub count_failed : Event → Outcome → Outcome
count_failed ev r = record r { failed = r.failed + 1; events = r.events ++ (ev ∷ []) }

-- The map `byCluster`, with a pair for each key.
abbrev pub Groups : Type 0
Groups = List (String × List Entry)

-- `byCluster[e.Cluster] = append(byCluster[e.Cluster], e)`
unfoldable pub add_entry : Entry → Groups → Groups
add_entry e [] = (e.cluster, e ∷ []) ∷ []
add_entry e ((c, es) ∷ groups) =
    if c == e.cluster then (c, es ++ (e ∷ [])) ∷ groups else (c, es) ∷ add_entry e groups

unfoldable pub group_from : Groups → List Entry → Groups
group_from groups [] = groups
group_from groups (e ∷ es) = group_from (add_entry e groups) es

unfoldable pub by_cluster : List Entry → Groups
unfolding group_from add_entry
by_cluster es = group_from [] es

unfoldable pub entries_of : String → Groups → List Entry
entries_of c [] = []
entries_of c ((d, es) ∷ groups) = if d == c then es else entries_of c groups

abbrev pub clusters_of : Groups → List String
clusters_of = map λ (c, _). c

-- The loop that fails every entry of a cluster that cannot be dialed.
unfoldable pub fail_all : String → String → List Entry → Outcome → Outcome
fail_all cluster text [] r = r
fail_all cluster text (e ∷ es) r =
    let t : Target = record { cluster = cluster; stream = e.stream; consumer = e.consumer } in
    fail_all cluster text es (count_failed (event t conn_fail text) r)

module _ (S : Server) where
  -- What the loop does with a consumer that is there and may be deleted.
  delete_entry : Options → Target → Session S → Outcome → Session S × Outcome
  delete_entry opts t w r =
      if opts.dry_run
      then (w, count_deleted (event t would "") r)
      else let (failure, w') = delete_consumer S t w in
        elim failure [
          | some e ↦ (w', count_failed (event t failed ("delete: " <> e)) r)
          | none ↦ (w', count_deleted (event t deleted "") r)
        ]

  -- The guards between the consumer's state and its deletion.
  judge : Options → Time → Target → ConsumerInfo → Session S → Outcome → Session S × Outcome
  unfolding delete_entry
  judge opts at t info w r =
      let why = reason opts.protect t.stream t.consumer info.metadata in
      let busy = is_active info at in
      if why != ""
      then (w, count_protected (event t protect why) r)
      else if busy != ""
      then (w, count_preserved (event t active busy) r)
      else delete_entry opts t w r

  -- One round of the loop of `applyOnCluster`.
  unfoldable pub apply_entry :
      String → Options → Time → Entry → Session S → Outcome → Session S × Outcome
  unfolding judge
  apply_entry cluster opts at e w r =
      let t : Target = record { cluster = cluster; stream = e.stream; consumer = e.consumer } in
      if e.skip
      then (w, count_skipped (event t skip "skip: true in manifest") r)
      else let (f, w') = fetch_consumer_info S t w in
        elim f [
          | missing ↦ (w', count_gone (event t gone "") r)
          | broken text ↦ (w', count_failed (event t failed text) r)
          | found info ↦ judge opts at t info w' r
        ]

  -- `applyOnCluster`
  unfoldable pub apply_on_cluster :
      String → Options → Time → List Entry → Session S → Outcome → Session S × Outcome
  apply_on_cluster cluster opts at [] w r = (w, r)
  apply_on_cluster cluster opts at (e ∷ es) w r =
      let (w', r') = apply_entry cluster opts at e w r in apply_on_cluster cluster opts at es w' r'

  -- One cluster of `Apply`.
  unfoldable pub apply_cluster :
      Options → Time → String → List Entry → Session S → Outcome → Session S × Outcome
  apply_cluster opts at cluster es w r =
      let (failure, s) = S.connect w.state cluster in
      let w' : Session S = record { state = s; log = dialed cluster ∷ w.log } in
      elim failure [
        | some text ↦ (w', fail_all cluster text es r)
        | none ↦
            let (w'', r') = apply_on_cluster cluster opts at es w' r in
            (record w'' { log = closed cluster ∷ w''.log }, r')
      ]

  -- The loop of `Apply` over the map, in the order `order` of its keys.
  unfoldable pub apply_clusters :
      Options
      → Time
      → Groups
      → List String
      → Session S
      → Outcome
      → Session S × Outcome × Option String
  apply_clusters opts at groups [] w r = (w, r, none)
  apply_clusters opts at groups (c ∷ order) w r = elim (S.cancelled w.state) [
    | some e ↦ (w, r, some e)
    | none ↦
        let (w', r') = apply_cluster opts at c (entries_of c groups) w r in
        apply_clusters opts at groups order w' r'
  ]

  -- `Apply`. Go ranges over the map of the clusters in any order: `order` is that order.
  unfoldable pub apply :
      List String → Manifest → Options → Session S → Session S × Outcome × Option String
  apply order m opts w = apply_clusters opts m.generated_at (by_cluster m.entries) order w empty
