-- ===== src/Metrics.antt =====
-- internal/infra/metrics/metrics.go: what the bot records for Prometheus. The registry is a library; a
-- vector is a function of the values of its labels, and a histogram the list of its observations.
use natsie.Base.{
  ℕ, ◌+◌, String, ◌&&◌, List, ◌++◌, [], ◌∷◌, Option, none, some, ◌==◌, string_eq, if◌then◌else◌,
}
use natsie.Base.Int.{pos, ltb_ℤ}
use natsie.Go.Time.{Duration}

-- `Metrics`
pub record Metrics : Type 0 where
  pub scan_duration : List (String × String × Duration)
  pub scan_runs : String → String → String → ℕ
  pub scan_candidates : String → String → Option ℕ
  pub apply_consumers : String → ℕ
  pub approval_latency : List Duration

abbrev pub outcome_of : Option String → String
outcome_of none = "success"
outcome_of (some _) = "error"

-- `WithLabelValues(schedule, kind, outcome).Inc()`
abbrev pub count_run :
    String → String → String → (String → String → String → ℕ) → String → String → String → ℕ
count_run s k o runs s' k' o' =
    if s == s' && k == k' && o == o' then runs s' k' o' + 1 else runs s' k' o'

-- `WithLabelValues(schedule, kind).Set(candidates)`
abbrev pub set_gauge :
    String → String → ℕ → (String → String → Option ℕ) → String → String → Option ℕ
set_gauge s k n gauge s' k' = if s == s' && k == k' then some n else gauge s' k'

-- `ObserveScan`
unfoldable pub observe_scan : String → String → ℕ → Duration → Option String → Metrics → Metrics
observe_scan s k n dur e m = record m {
  scan_duration = m.scan_duration ++ ((s, k, dur) ∷ []);
  scan_runs = count_run s k (outcome_of e) m.scan_runs;
  scan_candidates = elim e [
    | none ↦ set_gauge s k n m.scan_candidates
    | some _ ↦ m.scan_candidates
  ];
}

abbrev pub add_to : String → ℕ → (String → ℕ) → String → ℕ
add_to label n counts label' = if label == label' then counts label' + n else counts label'

-- `ObserveApply`
unfoldable pub observe_apply : ℕ → ℕ → ℕ → ℕ → ℕ → Duration → Metrics → Metrics
observe_apply deleted preserved gone skipped failed age m = record m {
  apply_consumers = add_to "failed" failed (
      add_to "skipped" skipped (
        add_to "gone" gone
          (add_to "preserved" preserved (add_to "deleted" deleted m.apply_consumers))));
  approval_latency =
      if ltb_ℤ (pos 0) age then m.approval_latency ++ (age ∷ []) else m.approval_latency;
}
