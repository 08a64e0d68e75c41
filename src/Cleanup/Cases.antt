-- ===== src/Cleanup/Cases.antt =====
-- The branches of one round of `applyOnCluster`, each with what its guards have found.
use natsie.Base.{
  String, ◌<>◌, true, false, none, some, ◌!=◌, string_eq, ◌≡◌, ◌≢◌, arith, Option-cases, Bool-cases,
  inl, inr, ◌⊎◌, refl,
}
use natsie.Go.Time.{Time}
use natsie.Manifest.{Entry}
use natsie.Protect.{reason}
use natsie.Cleanup.Nats.{
  Target, ConsumerInfo, Server, Session, Fetched, missing, broken, found, fetch_consumer_info,
  delete_consumer,
}
use natsie.Cleanup.{
  deleted, would, gone, skip, active, protect, failed, event, Outcome, Options, is_active,
  count_deleted, count_skipped, count_preserved, count_protected, count_gone, count_failed,
  delete_entry, judge, apply_entry,
}

Fetched-cases :
    (f : Fetched)
    → (f ≡ missing) ⊎ ((text : String) × (f ≡ broken text)) ⊎ ((i : ConsumerInfo) × (f ≡ found i))
Fetched-cases missing = inl refl
Fetched-cases (broken text) = inr (inl (text, refl))
Fetched-cases (found i) = inr (inr (i, refl))

-- The guards of a deletion: what was found is neither protected nor active.
pub record IsIdle (opts : Options) (at : Time) (t : Target) (info : ConsumerInfo) : Type 0 where
  pub unprotected : reason opts.protect t.stream t.consumer info.metadata ≡ ""
  pub inactive : is_active info at ≡ ""

-- A claim about session and outcome after the round, branch by branch.
pub record Branches (S : Server) (cluster : String) (opts : Options) (at : Time) (e : Entry)
    (w : Session S) (r : Outcome) (P : Session S → Outcome → Type 0) (t : Target) (f : Fetched)
    (w' : Session S) : Type 0 where
  pub skipped : e.skip ≡ true → P w (count_skipped (event t skip "skip: true in manifest") r)
  pub absent : e.skip ≡ false → f ≡ missing → P w' (count_gone (event t gone "") r)
  pub unknown :
      (text : String)
      → e.skip ≡ false
      → f ≡ broken text
      → P w' (count_failed (event t failed text) r)
  pub owned :
      (i : ConsumerInfo)
      → e.skip ≡ false
      → f ≡ found i
      → reason opts.protect t.stream t.consumer i.metadata ≢ ""
      → P w'
          (count_protected (event t protect (reason opts.protect t.stream t.consumer i.metadata)) r)
  pub busy :
      (i : ConsumerInfo)
      → e.skip ≡ false
      → f ≡ found i
      → is_active i at ≢ ""
      → P w' (count_preserved (event t active (is_active i at)) r)
  pub previewed :
      (i : ConsumerInfo)
      → e.skip ≡ false
      → f ≡ found i
      → IsIdle opts at t i
      → opts.dry_run ≡ true
      → P w' (count_deleted (event t would "") r)
  pub refused :
      (i : ConsumerInfo) (text : String)
      → e.skip ≡ false
      → f ≡ found i
      → IsIdle opts at t i
      → opts.dry_run ≡ false
      → (delete_consumer S t w').0 ≡ some text
      → P (delete_consumer S t w').1 (count_failed (event t failed ("delete: " <> text)) r)
  pub removed :
      (i : ConsumerInfo)
      → e.skip ≡ false
      → f ≡ found i
      → IsIdle opts at t i
      → opts.dry_run ≡ false
      → (delete_consumer S t w').0 ≡ none
      → P (delete_consumer S t w').1 (count_deleted (event t deleted "") r)

text-cases : (s : String) → ((s != "") ≡ true) × (s ≢ "") ⊎ ((s != "") ≡ false) × (s ≡ "")
text-cases s = elim (string_eq.dec s "") [
  | yes z ↦ inr (ground arith, z)
  | no n ↦ inl (ground arith, n)
]

module _ (S : Server) (cluster : String) (opts : Options) (at : Time) (e : Entry) (w : Session S)
    (r : Outcome) (P : Session S → Outcome → Type 0) where
  abbrev t : Target
  t = record { cluster = cluster; stream = e.stream; consumer = e.consumer }

  abbrev f : Fetched
  f = (fetch_consumer_info S t w).0

  abbrev w' : Session S
  w' = (fetch_consumer_info S t w).1

  delete_entry_cases :
      Branches S cluster opts at e w r P t f w'
      → (i : ConsumerInfo) → e.skip ≡ false
      → f ≡ found i
      → IsIdle opts at t i
      → P (delete_entry S opts t w' r).0 (delete_entry S opts t w' r).1
  unfolding delete_entry
  delete_entry_cases b i s found_it idle = elim (Bool-cases opts.dry_run) [
    | inl dry ↦ rw (dry, delete_entry) (b.previewed i s found_it idle dry)
    | inr real ↦ elim (Option-cases (delete_consumer S t w').0) [
      | inl n ↦ rw (real, n, delete_entry) (b.removed i s found_it idle real n)
      | inr (text, x) ↦ rw (real, x, delete_entry) (b.refused i text s found_it idle real x)
    ]
  ]

  judge_cases :
      Branches S cluster opts at e w r P t f w'
      → (i : ConsumerInfo) → e.skip ≡ false
      → f ≡ found i
      → P (judge S opts at t i w' r).0 (judge S opts at t i w' r).1
  unfolding judge
  judge_cases b i s found_it =
      elim (text-cases (reason opts.protect t.stream t.consumer i.metadata)) [
        | inl (q, d) ↦ rw (q, judge) (b.owned i s found_it d)
        | inr (q, free) ↦ elim (text-cases (is_active i at)) [
          | inl (q', d) ↦ rw (q, q', judge) (b.busy i s found_it d)
          | inr (q', quiet) ↦
              rw (q, q', judge)
                (delete_entry_cases b i s found_it
                  (record { unprotected = free; inactive = quiet }))
        ]
      ]

  pub apply_entry_cases :
      Branches S cluster opts at e w r P t f w'
      → P (apply_entry S cluster opts at e w r).0 (apply_entry S cluster opts at e w r).1
  unfolding apply_entry
  apply_entry_cases b = elim (Bool-cases e.skip) [
    | inl s ↦ rw (s, apply_entry) (b.skipped s)
    | inr s ↦ elim (Fetched-cases f) [
      | inl x ↦ rw (s, x, apply_entry) (b.absent s x)
      | inr (inl (text, x)) ↦ rw (s, x, apply_entry) (b.unknown text s x)
      | inr (inr (i, x)) ↦ rw (s, x, apply_entry) (judge_cases b i s x)
    ]
  ]
