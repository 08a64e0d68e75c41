-- ===== src/Natsctx.antt =====
-- internal/infra/natsctx/natsctx.go: the context files of the user, and the connections that are
-- dialed from them. Dialing, JSON, the home folder and the texts of the system's errors are parameters.
pub mod Confined
use Prim.Native.Char.{code}
use Prim.Native.String.{[], ◌∷◌}
use natsie.Base.{
  ℕ, zero, suc, ◌*◌, String, ◌<>◌, Bool, true, false, not, ◌&&◌, ◌||◌, List, ◌++◌, Option, none,
  some, ◌==◌, ◌!=◌, string_eq, ℕ_eq, if◌then◌else◌,
}
use natsie.Base.Int.{pos}
use natsie.Base.Result.{Result, ok, err}
use natsie.Go.Os.{OsError, not_exist, Fs, read_file, read_dir}
use natsie.Go.Sort.{sort_slice}
use natsie.Go.Strings.{has_suffix, trim_suffix, less, has_prefix}
use natsie.Go.Time.{Duration, second}

-- `contextFile`
pub record ContextFile : Type 0 where
  pub url : String
  pub username : String
  pub password : String
  pub token : String
  pub creds : String
  pub nkey : String
  pub tls_cert : String
  pub tls_key : String
  pub tls_ca : String
  pub inbox_prefix : String
  pub user_jwt : String
  pub socks_proxy : String
  pub jetstream_api_prefix : String

-- The options of nats.go that the source passes on.
pub data DialOption : Type 0 where
  user_credentials : String → DialOption
  user_jwt_and_seed : String → String → DialOption
  with_token : String → DialOption
  user_info : String → String → DialOption
  custom_inbox_prefix : String → DialOption
  client_name : String → DialOption
  timeout : Duration → DialOption
  no_reconnect : DialOption

-- What the package takes from outside; `C` is the type of the connections. The home folder is in its
-- clean form and not the root. The dial of nats.go reads the files that its options name.
pub record Host (C : Type 0) : Type 0 where
  pub home : Result String String
  pub unmarshal : String → Result String ContextFile
  pub dial : Fs → String → List DialOption → Result String C
  pub os_text : String → OsError → String
  pub quote : String → String

-- `Conn`
pub record Conn (C : Type 0) : Type 0 where
  pub conn : C
  pub name : String

pub data Error : Type 0 where
  invalid_name : String → Error
  no_home : String → Error
  unreadable : String → OsError → Error
  unparsable : String → String → Error
  no_url : String → Error
  undialed : String → String → Error
  unlisted : String → OsError → Error

-- `strings.ContainsAny(s, "/\\")`
unfoldable pub has_separator : String → Bool
unfolding ℕ_eq
has_separator [] = false
has_separator (c ∷ s) = code c == 47 || code c == 92 || has_separator s

-- The parts of a path between its slashes; `part` is what has been read of the next one.
unfoldable pub parts_from : String → String → List String
parts_from part [] = List.◌∷◌ part List.[]
parts_from part (c ∷ s) =
    let cut = List.◌∷◌ part (parts_from "" s) in
    let longer = parts_from (part <> (c ∷ "")) s in if code c == 47 then cut else longer

-- Whether a walk along the parts never goes above the folder where it starts, `depth` folders up.
unfoldable pub stays_below : ℕ → List String → Bool
stays_below depth List.[] = true
stays_below depth (List.◌∷◌ p ps) =
    if p == "" || p == "."
    then stays_below depth ps
    else if p == ".."
    then (elim depth [ zero ↦ false | suc d ↦ stays_below d ps ])
    else stays_below (suc depth) ps

-- `filepath.IsLocal` on Unix.
unfoldable pub is_local : String → Bool
unfolding parts_from stays_below
is_local path = path != "" && not (has_prefix path "/") && stays_below 0 (parts_from "" path)

abbrev pub context_dir : String → String
context_dir home = home <> "/.config/nats/context"

module _ {C : Type 0} (h : Host C) where
  -- The texts of the errors.
  unfoldable pub error_text : Error → String
  error_text (invalid_name name) = "invalid nats context name " <> h.quote name
  error_text (no_home e) = e
  error_text (unreadable path e) = "read context " <> (path <> (": " <> h.os_text path e))
  error_text (unparsable path e) = "parse context " <> (path <> (": " <> e))
  error_text (no_url name) = "context " <> (name <> " has no url")
  error_text (undialed url e) = "dial " <> (url <> (": " <> e))
  error_text (unlisted dir e) = "read " <> (dir <> (": " <> h.os_text dir e))

  -- The texts of the errors of `Probe`, which adds nothing to those it passes on.
  unfoldable pub probe_text : Error → String
  unfolding error_text
  probe_text (unreadable path e) = h.os_text path e
  probe_text (unparsable path e) = e
  probe_text (undialed url e) = e
  probe_text e = error_text e

  -- `contextPath`
  unfoldable pub context_path : String → Result Error String
  context_path name =
      if name == "" || has_separator name || not (is_local name)
      then err (invalid_name name)
      else elim h.home [
        | err e ↦ err (no_home e)
        | ok home ↦ ok (context_dir home <> ("/" <> (name <> ".json")))
      ]

  -- What `Connect` and `Probe` read: a context with a URL.
  unfoldable pub load : Fs → String → Result Error ContextFile
  unfolding context_path
  load fs name = elim (context_path name) [
    | err e ↦ err e
    | ok path ↦ elim (read_file fs path) [
      | err e ↦ err (unreadable path e)
      | ok text ↦ elim (h.unmarshal text) [
        | err e ↦ err (unparsable path e)
        | ok cf ↦ if cf.url == "" then err (no_url name) else ok cf
      ]
    ]
  ]

-- The switch over the credentials, which both functions have.
unfoldable pub credentials : ContextFile → List DialOption
credentials cf =
    if cf.creds != ""
    then List.◌∷◌ (user_credentials cf.creds) List.[]
    else if cf.user_jwt != "" && cf.nkey != ""
    then List.◌∷◌ (user_jwt_and_seed cf.user_jwt cf.nkey) List.[]
    else if cf.token != ""
    then List.◌∷◌ (with_token cf.token) List.[]
    else if cf.username != ""
    then List.◌∷◌ (user_info cf.username cf.password) List.[]
    else List.[]

unfoldable pub connect_options : ContextFile → List DialOption
connect_options cf =
    credentials cf
    ++ ((if cf.inbox_prefix != ""
          then List.◌∷◌ (custom_inbox_prefix cf.inbox_prefix) List.[]
          else List.[])
        ++ List.◌∷◌ (client_name "natsie") List.[])

-- `probeTimeout`
abbrev pub probe_timeout : Duration
probe_timeout = pos (3 * second)

unfoldable pub probe_options : ContextFile → List DialOption
probe_options cf =
    credentials cf
    ++ List.◌∷◌ (client_name "natsie-probe")
        (List.◌∷◌ (timeout probe_timeout) (List.◌∷◌ no_reconnect List.[]))

-- `Info`
pub record Info : Type 0 where
  pub name : String
  pub url : String
  pub user : String

module _ {C : Type 0} (h : Host C) where
  -- `Connect`
  unfoldable pub connect : Fs → String → Result Error (Conn C)
  unfolding load connect_options credentials
  connect fs name = elim (load h fs name) [
    | err e ↦ err e
    | ok cf ↦ elim (h.dial fs cf.url (connect_options cf)) [
      | err e ↦ err (undialed cf.url e)
      | ok nc ↦ ok (record { conn = nc; name = name })
    ]
  ]

  -- `Probe`: its error, if it has one.
  unfoldable pub probe : Fs → String → Option Error
  unfolding load probe_options credentials
  probe fs name = elim (load h fs name) [
    | err e ↦ some e
    | ok cf ↦ elim (h.dial fs cf.url (probe_options cf)) [
      | err e ↦ some (undialed cf.url e)
      | ok nc ↦ none
    ]
  ]

  -- The loop of `List`: folders, other files, and files that cannot be read are passed over.
  unfoldable pub infos_of : Fs → String → List (String × Bool) → List Info
  infos_of fs dir List.[] = List.[]
  infos_of fs dir (List.◌∷◌ (file, is_dir) es) =
      let rest = infos_of fs dir es in
      if is_dir || not (has_suffix file ".json")
      then rest
      else elim (read_file fs (dir <> ("/" <> file))) [
        | err _ ↦ rest
        | ok text ↦ elim (h.unmarshal text) [
          | err _ ↦ rest
          | ok cf ↦
              List.◌∷◌
                (record { name = trim_suffix file ".json"; url = cf.url; user = cf.username }) rest
        ]
      ]

  abbrev pub less_info : Info → Info → Bool
  less_info a b = less a.name b.name

  -- `List`
  unfoldable pub list : Fs → Result Error (List Info)
  unfolding infos_of
  list fs = elim h.home [
    | err e ↦ err (no_home e)
    | ok home ↦ elim (read_dir fs (context_dir home)) [
      | err not_exist ↦ ok List.[]
      | err e ↦ err (unlisted (context_dir home) e)
      | ok entries ↦ ok (sort_slice less_info (infos_of fs (context_dir home) entries))
    ]
  ]
