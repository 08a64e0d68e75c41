-- ===== src/Natsctx/Confined.antt =====
-- Where the names of contexts lead.
use Prim.Native.String.{[], ◌∷◌}
use natsie.Base.{
  ◌≤◌, ap, String, ◌<>◌, false, ◌≡◌, ◌≢◌, refl, arith, inl, inr, string_eq, ℕ_eq, Bool-cases, List,
  ◌++◌, In, All, All-at, All-append, subst, sym, ◌∙◌, if◌then◌else◌, ◌&&◌, ◌!=◌,
}
use natsie.Base.Result.{ok, Result-cases}
use natsie.Go.Os.{Fs, stat, read_file}
use natsie.Go.Strings.{has_slash, count}
use natsie.Natsctx.{
  ContextFile, DialOption, user_credentials, user_jwt_and_seed, with_token, user_info,
  custom_inbox_prefix, client_name, timeout, no_reconnect, credentials, connect_options,
  probe_options, Host, has_separator, context_path, load, connect, probe, context_dir,
}

has_slash-append :
    (s t : String) → has_separator s ≡ false → has_slash t ≡ false → has_slash (s <> t) ≡ false
unfolding has_slash has_separator
has_slash-append [] t h k = k
has_slash-append (c ∷ s) t h k = ground (arith, has_slash-append s t)

count-json : (name : String) → 3 ≤ count (name <> ".json")
unfolding count
count-json [] = omega arith
count-json (c ∷ s) = omega (arith, count-json s)

not-dots : (name : String) → (name <> ".json" ≢ ".") × (name <> ".json" ≢ "..")
unfolding count
not-dots name = (
  λ e. omega (arith, count-json name, ap count e),
  λ e. omega (arith, count-json name, ap count e),
)

-- The name of an entry of a folder.
abbrev pub IsBase : String → Type 0
IsBase base = (has_slash base ≡ false) × (base ≢ ".") × (base ≢ "..")

context_path-IsBase :
    {C : Type 0} (h : Host C) (name : String) {home p : String}
    → h.home ≡ ok home
    → context_path h name ≡ ok p
    → (p ≡ context_dir home <> ("/" <> (name <> ".json"))) × IsBase (name <> ".json")
unfolding context_path has_slash
context_path-IsBase h name at e = elim (Bool-cases (has_separator name)) [
  | inl s ↦ absurd (ground (arith, s))
  | inr s ↦
      let base : IsBase (name <> ".json") =
        (has_slash-append name ".json" s json_plain, (not-dots name).0, (not-dots name).1) in
      (ground (arith, s), base)
]
  where
    json_plain : has_slash ".json" ≡ false
    json_plain = refl

-- The two file systems have the same entries in the folder.
abbrev pub AgreeIn : String → Fs → Fs → Type 0
AgreeIn dir fs fs' =
    (base : String) → IsBase base → stat fs (dir <> ("/" <> base)) ≡ stat fs' (dir <> ("/" <> base))

load_confined :
    {C : Type 0} (h : Host C) (fs fs' : Fs) (name : String) {home : String}
    → h.home ≡ ok home
    → AgreeIn (context_dir home) fs fs'
    → load h fs name ≡ load h fs' name
unfolding load read_file
load_confined h fs fs' name at same = elim (Result-cases (context_path h name)) [
  | inr (x, g) ↦ rw (g, load) refl
  | inl (p, g) ↦
      let (there, plain) = context_path-IsBase h name at g in
      let s : stat fs p ≡ stat fs' p = rw there (same (name <> ".json") plain) in
      rw (g, s, load) refl
]

-- What nats.go says of its options: a dial reads no file but those that `UserCredentials` names.
pub record ReadsCredentials {C : Type 0} (h : Host C) : Type 0 where
  pub reads :
      (url : String) (options : List DialOption) (fs fs' : Fs)
      → ((path : String) → In (user_credentials path) options → stat fs path ≡ stat fs' path)
      → h.dial fs url options ≡ h.dial fs' url options

-- Where the context is loaded, the two file systems have the same under the path of its credentials.
abbrev pub AgreeOnCredentials : {C : Type 0} → Host C → String → Fs → Fs → Type 0
AgreeOnCredentials h name fs fs' =
    (cf : ContextFile)
    → load h fs name ≡ ok cf
    → cf.creds ≢ ""
    → stat fs cf.creds ≡ stat fs' cf.creds

-- An option names no file but the credentials of the context.
abbrev IsOwn : ContextFile → DialOption → Type 0
IsOwn cf (user_credentials path) = (cf.creds ≢ "") × (path ≡ cf.creds)
IsOwn cf (user_jwt_and_seed _ _) = Unit {0}
IsOwn cf (with_token _) = Unit {0}
IsOwn cf (user_info _ _) = Unit {0}
IsOwn cf (custom_inbox_prefix _) = Unit {0}
IsOwn cf (client_name _) = Unit {0}
IsOwn cf (timeout _) = Unit {0}
IsOwn cf no_reconnect = Unit {0}

credentials-AllOwn : (cf : ContextFile) → All (IsOwn cf) (credentials cf)
unfolding credentials
credentials-AllOwn cf = elim (Bool-cases (cf.creds != "")) [
  | inl given ↦
      let named : cf.creds ≢ "" = λ e. ground (arith, given, e) in rw given ((named, refl), tt)
  | inr e ↦ elim (Bool-cases (cf.user_jwt != "" && cf.nkey != "")) [
    | inl jwt ↦ rw (e, jwt) (tt, tt)
    | inr no_jwt ↦ elim (Bool-cases (cf.token != "")) [
      | inl token ↦ rw (e, no_jwt, token) (tt, tt)
      | inr no_token ↦ elim (Bool-cases (cf.username != "")) [
        | inl user ↦ rw (e, no_jwt, no_token, user) (tt, tt)
        | inr no_user ↦ rw (e, no_jwt, no_token, no_user) tt
      ]
    ]
  ]
]

connect_options-AllOwn : (cf : ContextFile) → All (IsOwn cf) (connect_options cf)
unfolding connect_options
connect_options-AllOwn cf = All-append (IsOwn cf) (credentials cf) _ (credentials-AllOwn cf) inbox
  where
    inbox : All (IsOwn cf) (
        (if cf.inbox_prefix != ""
          then List.◌∷◌ (custom_inbox_prefix cf.inbox_prefix) List.[]
          else List.[])
        ++ List.◌∷◌ (client_name "natsie") List.[])
    inbox = elim (Bool-cases (cf.inbox_prefix != "")) [
      | inl set ↦ rw set (tt, (tt, tt))
      | inr unset ↦ rw unset (tt, tt)
    ]

probe_options-AllOwn : (cf : ContextFile) → All (IsOwn cf) (probe_options cf)
unfolding probe_options
probe_options-AllOwn cf =
    All-append (IsOwn cf) (credentials cf) _ (credentials-AllOwn cf) (tt, (tt, (tt, tt)))

dial-agrees :
    {C : Type 0} (h : Host C) (fs fs' : Fs) (cf : ContextFile) (url : String)
    (options : List DialOption)
    → ReadsCredentials h
    → All (IsOwn cf) options
    → (cf.creds ≢ "" → stat fs cf.creds ≡ stat fs' cf.creds)
    → h.dial fs url options ≡ h.dial fs' url options
dial-agrees h fs fs' cf url options dials own same = dials.reads url options fs fs' agree
  where
    agree : (path : String) → In (user_credentials path) options → stat fs path ≡ stat fs' path
    agree path i =
        let (given, at) = All-at (IsOwn cf) options (user_credentials path) own i in
        subst (λ p. stat fs p ≡ stat fs' p) (sym at) (same given)

-- Whatever name comes in, from the chat too, `Connect` and `Probe` look at no file but the entries of
-- the folder `.config/nats/context` of the home and the credentials that the context itself names: on
-- two file systems that have the same entries there, and the same under that path, they do the same.
-- This is so where the dial reads no file but the credentials in its options.
pub connect_confined :
    {C : Type 0} (h : Host C) (fs fs' : Fs) (name : String) {home : String}
    → ReadsCredentials h
    → h.home ≡ ok home
    → AgreeIn (context_dir home) fs fs'
    → AgreeOnCredentials h name fs fs'
    → (connect h fs name ≡ connect h fs' name) × (probe h fs name ≡ probe h fs' name)
unfolding connect probe
connect_confined h fs fs' name dials at same creds = elim (Result-cases (load h fs name)) [
  | inr (x, f) ↦
      let g = sym (load_confined h fs fs' name at same) ∙ f in
      (rw (f, g, connect) refl, rw (f, g, probe) refl)
  | inl (cf, f) ↦
      let g = sym (load_confined h fs fs' name at same) ∙ f in
      let agrees = dial-agrees h fs fs' cf cf.url in
      (
        rw
            (
              f,
              g,
              agrees (connect_options cf) dials (connect_options-AllOwn cf) (creds cf f),
              connect,
            )
            refl,
        rw (f, g, agrees (probe_options cf) dials (probe_options-AllOwn cf) (creds cf f), probe)
            refl,
      )
]
