-- ===== src/Store/Dial.antt =====
-- internal/infra/store/store.go: the store of a URL.
use natsie.Base.{String, ◌==◌, string_eq, if◌then◌else◌}
use natsie.Base.Result.{Result, ok, err}
use natsie.Go.Os.{Fs}
use natsie.Store
use natsie.Store.{File, new_file}

-- What the source reads of a `neturl.URL`.
pub record Url : Type 0 where
  pub scheme : String
  pub path : String

pub data DialError : Type 0 where
  bad_url : String → String → DialError
  unknown_scheme : String → DialError
  no_file : natsie.Store.Error → DialError

-- `Dial`; `parse` is `neturl.Parse`.
unfoldable pub dial : (String → Result String Url) → Fs → String → Result DialError File × Fs
dial parse fs url = elim (parse url) [
  | err e ↦ (err (bad_url url e), fs)
  | ok u ↦
      if u.scheme == "file"
      then (let (r, fs') = new_file fs u.path in
          (elim r [ err e ↦ err (no_file e) | ok f ↦ ok f ], fs'))
      else (err (unknown_scheme u.scheme), fs)
]
