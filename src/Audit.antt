-- ===== src/Audit.antt =====
-- internal/audit/audit.go: the trail of events, without their times.
use natsie.Base.{ℕ, String, Bool, not, ◌&&◌, List, [], ◌∷◌, ◌++◌, ◌==◌, string_eq, if◌then◌else◌}

-- `Event`
pub record AuditEvent : Type 0 where
  pub kind : String
  pub manifest : String
  pub schedule : String
  pub source : String
  pub entries : ℕ
  pub result : String
  pub error : String

-- An event with nothing set but its kind.
abbrev pub of_kind : String → AuditEvent
of_kind kind = record {
  kind = kind;
  manifest = "";
  schedule = "";
  source = "";
  entries = 0;
  result = "";
  error = "";
}

-- A logger, which may be nil, and what it has written.
pub record Trail : Type 0 where
  pub enabled : Bool
  pub events : List AuditEvent

-- `(*Logger).Log`, whose error no caller looks at.
unfoldable pub log : AuditEvent → Trail → Trail
log ev t =
    if t.enabled && not (ev.kind == "") then record t { events = t.events ++ (ev ∷ []) } else t
