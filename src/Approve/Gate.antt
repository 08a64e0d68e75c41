-- ===== src/Approve/Gate.antt =====
-- What stands between a request and the clusters.
use natsie.Base.{String, true, false, List, [], string_eq, ◌≡◌, arith, ◌⊎◌, inl, inr, Bool-cases}
use natsie.Base.Result.{ok, Result-cases}
use natsie.Go.Time.{Time}
use natsie.Manifest.{Manifest, Yaml}
use natsie.Store.{valid_id, get}
use natsie.Cleanup.{apply, Options}
use natsie.Cleanup.Nats.{Server}
use natsie.Cleanup.Guarded.{IsGuarded, apply-IsGuarded}
use natsie.Approve.{Mac, Listener, World, do_approval, approve, check_approval_token}

-- The request is good for the manifest: its id is valid, its token is the MAC of the id under the
-- signing key, and the manifest is stored.
pub record IsAuthorized (yaml : Yaml) (mac : Mac) {S : Server} (s : Listener) (id token : String)
    (w : World S) (m : Manifest) : Type 0 where
  pub id_ok : valid_id id ≡ true
  pub token_ok : token ≡ mac s.signing_key id
  pub stored : get yaml s.store w.fs id ≡ ok m

module _ (S : Server) (yaml : Yaml) (mac : Mac) (s : Listener) where
  approve-session :
      (order : List String) (now : Time) (source id : String) (m : Manifest) (w : World S)
      → ((approve S yaml mac s order now source id m w).1.session
          ≡ (apply S order m (record { dry_run = false; protect = s.protect }) w.session).0)
        × ((approve S yaml mac s order now source id m w).1.fs ≡ w.fs)
  unfolding approve
  approve-session order now source id m w = ground arith

  -- The three ways out, or the approval of a manifest that the request is good for.
  do_approval_cases :
      (order : List String) (now : Time) (source id token : String) (w : World S)
      → (((do_approval S yaml mac s order now source id token w).1.session ≡ w.session)
          × ((do_approval S yaml mac s order now source id token w).1.fs ≡ w.fs))
        ⊎ ((m : Manifest) × IsAuthorized yaml mac s id token w m
            × (do_approval S yaml mac s order now source id token w
                ≡ approve S yaml mac s order now source id m w))
  unfolding do_approval check_approval_token
  do_approval_cases order now source id token w = elim (Bool-cases (valid_id id)) [
    | inr bad ↦ inl (ground arith)
    | inl good ↦ elim (string_eq.dec token (mac s.signing_key id)) [
      | no differ ↦ inl (ground arith)
      | yes same ↦ elim (Result-cases (get yaml s.store w.fs id)) [
        | inr (e, lost) ↦ inl (ground arith)
        | inl (m, there) ↦
            inr (m, record { id_ok = good; token_ok = same; stored = there }, ground arith)
      ]
    ]
  ]

-- A `doApproval` either leaves the clusters and the files alone, or the request is good for a stored
-- manifest and, if no request had gone out before, every deletion that it sends is guarded as those
-- of `Apply` are, with the listener's protector.
pub do_approval-IsGuarded :
    (S : Server) (yaml : Yaml) (mac : Mac) (s : Listener) (order : List String) (now : Time)
    (source id token : String) (w : World S)
    → w.session.log ≡ []
    → let w' = (do_approval S yaml mac s order now source id token w).1 in
      (w'.fs ≡ w.fs)
      × ((w'.session ≡ w.session)
          ⊎ ((m : Manifest) × IsAuthorized yaml mac s id token w m
              × IsGuarded (record { dry_run = false; protect = s.protect }) m w'.session.log))
do_approval-IsGuarded S yaml mac s order now source id token w fresh =
    elim (do_approval_cases S yaml mac s order now source id token w) [
      | inl (same, files) ↦ (files, inl same)
      | inr (m, good, e) ↦
          let opts : Options = record { dry_run = false; protect = s.protect } in
          let (session, files) = approve-session S yaml mac s order now source id m w in
          (
            rw e files,
            inr (m, good, rw (e, session) (apply-IsGuarded S order m opts w.session fresh)),
          )
    ]
