-- ===== src/Tests/ContextRuns.antt =====
-- Connections to contexts over two file systems that differ outside the folder of the contexts.
use natsie.Base.{
  ◌<>◌, String, true, false, List, [], ◌∷◌, none, ◌≡◌, ◌≢◌, refl, string_eq, ℕ_eq, inl, inr, In,
  sym, ◌∙◌, subst, ap, eq→==, ne→==,
}
use natsie.Base.Result.{Result, ok, err, ok-injective}
use natsie.Go.Os.{Fs, folder, file, find, stat, write_file, put}
use natsie.Go.Strings.{has_prefix}
use natsie.Scanner.Classify.{status_eq}
use natsie.Natsctx.{
  Host, ContextFile, DialOption, user_credentials, user_jwt_and_seed, with_token, user_info,
  custom_inbox_prefix, client_name, timeout, no_reconnect, load, connect, probe, context_dir,
}
use natsie.Natsctx.Confined.{AgreeIn, AgreeOnCredentials, ReadsCredentials, connect_confined}
use natsie.Chat.Api.{Nats}
use natsie.Tests.CommandRuns.{context_file, connection, host}

abbrev other_disk : Fs
other_disk = record {
  nodes = ("/h/.config/nats/context/a.json", file "{}") ∷ ("/h/secret.json", file "{}") ∷ [];
  faults = λ p. none;
}

abbrev a_disk : Fs
a_disk = record { nodes = ("/h/.config/nats/context/a.json", file "{}") ∷ []; faults = λ p. none }

apart : (base : String) → "/h/secret.json" ≢ context_dir "/h" <> ("/" <> base)
unfolding has_prefix ℕ_eq
apart base e = let q : true ≡ false = ap (λ (s : String). has_prefix s "/h/s") e in cc

disks-AgreeIn : AgreeIn (context_dir "/h") a_disk other_disk
unfolding stat find
disks-AgreeIn base plain =
    elim (string_eq.dec "/h/.config/nats/context/a.json" (context_dir "/h" <> ("/" <> base))) [
      | yes e ↦ rw (eq→== _ _ e, stat, find) refl
      | no n ↦
          rw
            (
              ne→== _ _ n,
              ne→== "/h/secret.json" (context_dir "/h" <> ("/" <> base)) (apart base),
              stat,
              find,
            )
            refl
    ]

abbrev creds_file : ContextFile
creds_file = record context_file { creds = "/h/a.creds" }

-- A dial that looks for the credentials of its options.
unfoldable dial_with : Fs → List DialOption → Result String Nats
dial_with fs [] = ok connection
dial_with fs (user_credentials path ∷ options) = elim (stat fs path) [
  | ok _ ↦ ok connection
  | err _ ↦ err "no credentials"
]
dial_with fs (o ∷ options) = dial_with fs options

abbrev creds_host : Host Nats
creds_host = record host {
  unmarshal = λ text. ok creds_file;
  dial = λ fs url options. dial_with fs options;
}

dial_with-agrees :
    (options : List DialOption) (fs fs' : Fs)
    → ((path : String) → In (user_credentials path) options → stat fs path ≡ stat fs' path)
    → dial_with fs options ≡ dial_with fs' options
unfolding dial_with
dial_with-agrees [] fs fs' same = refl
dial_with-agrees (user_credentials path ∷ options) fs fs' same =
    rw (same path (inl refl), dial_with) refl
dial_with-agrees (user_jwt_and_seed _ _ ∷ options) fs fs' same =
    dial_with-agrees options fs fs' (λ p i. same p (inr i))
dial_with-agrees (with_token _ ∷ options) fs fs' same =
    dial_with-agrees options fs fs' (λ p i. same p (inr i))
dial_with-agrees (user_info _ _ ∷ options) fs fs' same =
    dial_with-agrees options fs fs' (λ p i. same p (inr i))
dial_with-agrees (custom_inbox_prefix _ ∷ options) fs fs' same =
    dial_with-agrees options fs fs' (λ p i. same p (inr i))
dial_with-agrees (client_name _ ∷ options) fs fs' same =
    dial_with-agrees options fs fs' (λ p i. same p (inr i))
dial_with-agrees (timeout _ ∷ options) fs fs' same =
    dial_with-agrees options fs fs' (λ p i. same p (inr i))
dial_with-agrees (no_reconnect ∷ options) fs fs' same =
    dial_with-agrees options fs fs' (λ p i. same p (inr i))

creds_host-ReadsCredentials : ReadsCredentials creds_host
creds_host-ReadsCredentials = record {
  reads = λ url options fs fs' same. dial_with-agrees options fs fs' same;
}

loaded_creds : load creds_host a_disk "a" ≡ ok creds_file
unfolding load string_eq natsie.Natsctx.has_separator natsie.Natsctx.is_local has_prefix
    natsie.Go.Os.read_file stat find
loaded_creds = refl

no_creds : stat a_disk "/h/a.creds" ≡ stat other_disk "/h/a.creds"
unfolding stat find string_eq
no_creds = refl

disks-AgreeOnCredentials : AgreeOnCredentials creds_host "a" a_disk other_disk
disks-AgreeOnCredentials cf found given =
    let same : creds_file ≡ cf = ok-injective (sym loaded_creds ∙ found) in
    subst (λ (c : ContextFile). stat a_disk c.creds ≡ stat other_disk c.creds) same no_creds

connect_confined_example :
    (connect creds_host a_disk "a" ≡ connect creds_host other_disk "a")
    × (probe creds_host a_disk "a" ≡ probe creds_host other_disk "a")
connect_confined_example =
    connect_confined creds_host a_disk other_disk "a" creds_host-ReadsCredentials refl disks-AgreeIn
      disks-AgreeOnCredentials
