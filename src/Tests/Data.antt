-- ===== src/Tests/Data.antt =====
-- A server in memory, a document format for one manifest, and the data of the runs.
use natsie.Base.{
  String, true, false, List, [], ◌∷◌, Option, none, some, ◌==◌, string_eq, ℕ_eq, ℕ_discrete,
  if◌then◌else◌, ◌≡◌, ◌≢◌, refl, arith,
}
use natsie.Base.Int.{ℤ, pos}
use natsie.Base.Result.{Result, ok, err}
use natsie.Manifest.{Manifest, Entry, ScanInfo, Yaml, version}
use natsie.Manifest.RoundTrip.{RoundTrips}
use natsie.Cleanup.Nats.{Target, ConsumerInfo, Reply, decoded, Server, err_code_not_found}
use natsie.Cleanup.Survival.{IsLawful}
use natsie.Cleanup.Completion.{IsResponsive}

abbrev ℤ-discrete : Discrete ℤ
ℤ-discrete = hlevel (ℕ_discrete)

abbrev Entry-discrete : Discrete Entry
Entry-discrete = hlevel (string_eq.dec, ℕ_discrete, ℤ-discrete)

abbrev Scan-discrete : Discrete ScanInfo
Scan-discrete = hlevel (string_eq.dec, ℤ-discrete)

abbrev Manifest-discrete : Discrete Manifest
Manifest-discrete = hlevel (string_eq.dec, ℕ_discrete, Scan-discrete, Entry-discrete)

abbrev pub entry : String → Entry
entry c = record {
  cluster = "a";
  stream = "ORDERS";
  consumer = c;
  status = "STALE";
  peer_status = "";
  num_pending = pos 20000;
  idle = pos 0;
  last_ack = 0;
  reason = "";
  skip = false;
}

abbrev pub old_and_new : Manifest
old_and_new = record {
  version = version;
  generated_at = 1000;
  generated_by = "natsie dev";
  scan = record {
    context = "a";
    peer_context = "";
    stream = "";
    min_pending = pos 0;
    min_idle = pos 0;
  };
  entries = entry "old" ∷ entry "new" ∷ [];
}

-- A format with one document.
abbrev pub one_document : Manifest → Yaml
one_document m = record {
  marshal = λ n. elim (Manifest-discrete n m) [ yes _ ↦ ok "doc" | no _ ↦ err "another manifest" ];
  unmarshal = λ text. if text == "doc" then ok m else err "another text";
}

pub one_document-RoundTrips : (m : Manifest) → RoundTrips (one_document m)
one_document-RoundTrips m = record { back = λ n text e. read_back n text (Manifest-discrete n m) e }
  where
    read_back :
        (n : Manifest) (text : String) (d : Dec (n ≡ m))
        → Path
            (Result String String)
            (elim d [ yes _ ↦ ok "doc" | no _ ↦ err "another manifest" ])
            (ok text)
        → (one_document m).unmarshal text ≡ ok n
    read_back n text (yes same) e = ground arith
    read_back n text (no differ) e = absurd (ground arith)

abbrev same_target : Discrete Target
same_target = hlevel (string_eq.dec)

-- The consumers of a server in memory.
abbrev pub Consumers : Type 0
Consumers = List (Target × ConsumerInfo)

abbrev pub find : Consumers → Target → Option ConsumerInfo
find [] t = none
find ((u, i) ∷ s) t = elim (same_target u t) [ yes _ ↦ some i | no _ ↦ find s t ]

abbrev pub without : Target → Consumers → Consumers
without t [] = []
without t ((u, i) ∷ s) = elim (same_target u t) [
  | yes _ ↦ without t s
  | no _ ↦ (u, i) ∷ without t s
]

abbrev pub absent_info : ConsumerInfo
absent_info = record {
  error =
      some
        (record { code = 404; err_code = err_code_not_found; description = "consumer not found" });
  push_bound = false;
  num_waiting = pos 0;
  metadata = [];
  last_active = none;
}

abbrev answer : Option ConsumerInfo → Reply ConsumerInfo
answer none = decoded absent_info
answer (some i) = decoded i

abbrev pub memory : Server
memory = record {
  State = Consumers;
  cancelled = λ s. none;
  connect = λ s c. (none, s);
  info = λ s t. (answer (find s t), s);
  delete = λ s t. (decoded (record { success = true; error = none }), without t s);
}

find-without : (s : Consumers) (u t : Target) → t ≢ u → find (without u s) t ≡ find s t
find-without [] u t d = refl
find-without ((v, i) ∷ s) u t d = ground (arith, find-without s u t d)

find-without-same : (s : Consumers) (u : Target) → find (without u s) u ≡ none
find-without-same [] u = refl
find-without-same ((v, i) ∷ s) u = ground (arith, find-without-same s u)

pub memory-IsLawful : IsLawful memory find
memory-IsLawful = record {
  connect_keeps = λ s c t. refl;
  info_keeps = λ s u t. refl;
  info_true = λ s u i e f. ground arith;
  delete_keeps = λ s u t d. find-without s u t d;
}

pub memory-IsResponsive : IsResponsive memory find
memory-IsResponsive = record {
  not_cancelled = λ s. refl;
  reachable = λ s c. refl;
  answers = λ s u i h. ground (arith, h);
  removes = λ s u. find-without-same s u;
}
