-- ===== src/Cleanup/Guarded.antt =====
-- What goes out before a deletion goes out.
use natsie.Base.{String, false, List, [], ◌∷◌, ◌≡◌, refl, ap, In, All, inl, inr}
use natsie.Manifest.{Entry, Manifest}
use natsie.Cleanup.Nats.{
  Target, ConsumerInfo, Server, Session, Request, dialed, closed, asked, deletion, found,
  fetch_consumer_info, delete_consumer,
}
use natsie.Cleanup.{Options, apply, target_of}
use natsie.Cleanup.Cases.{IsIdle, apply_entry_cases}
use natsie.Cleanup.Rule.{Keeps, apply-keeps}

-- The target is that of an entry which the manifest does not skip.
abbrev pub IsListed : Manifest → Target → Type 0
IsListed m t = (e : Entry) × In e m.entries × (e.skip ≡ false) × (target_of e ≡ t)

-- The log has just had the answer to the question about the target, and it allows the deletion.
abbrev pub JustCleared : Options → Manifest → Target → List Request → Type 0
JustCleared opts m t [] = ⊥
JustCleared opts m t (dialed _ ∷ _) = ⊥
JustCleared opts m t (closed _ ∷ _) = ⊥
JustCleared opts m t (deletion _ ∷ _) = ⊥
JustCleared opts m t (asked u f ∷ _) =
    (u ≡ t)
    × ((i : ConsumerInfo) × (f ≡ found i) × IsIdle opts m.generated_at t i)
    × (opts.dry_run ≡ false)
    × IsListed m t

-- Every deletion of the log comes right after such an answer. The newest request stands first.
abbrev pub IsGuarded : Options → Manifest → List Request → Type 0
IsGuarded opts m [] = Unit {0}
IsGuarded opts m (deletion t ∷ log) = JustCleared opts m t log × IsGuarded opts m log
IsGuarded opts m (dialed _ ∷ log) = IsGuarded opts m log
IsGuarded opts m (closed _ ∷ log) = IsGuarded opts m log
IsGuarded opts m (asked _ _ ∷ log) = IsGuarded opts m log

pub In-All :
    (es all : List Entry)
    → ((e : Entry) → In e es → In e all)
    → All (λ e. In e all × (e.cluster ≡ e.cluster)) es
In-All [] all h = tt
In-All (e ∷ es) all h = ((h e (inl refl), refl), In-All es all (λ x i. h x (inr i)))

-- The entry is one of the manifest, under its cluster.
abbrev pub Own : Manifest → String → Entry → Type 0
Own m c e = In e m.entries × (e.cluster ≡ c)

abbrev pub at_key : String → Entry → Target
at_key c e = record { cluster = c; stream = e.stream; consumer = e.consumer }

module _ (S : Server) (opts : Options) (m : Manifest) where
  asks :
      (c : String) (e : Entry) (w : Session S)
      → IsGuarded opts m w.log
      → IsGuarded opts m (fetch_consumer_info S (at_key c e) w).1.log
  unfolding fetch_consumer_info
  asks c e w h = h

  deletes :
      (c : String) (e : Entry) (w : Session S) (i : ConsumerInfo)
      → Own m c e
      → IsGuarded opts m w.log
      → e.skip ≡ false
      → (fetch_consumer_info S (at_key c e) w).0 ≡ found i
      → IsIdle opts m.generated_at (at_key c e) i
      → opts.dry_run ≡ false
      → IsGuarded opts m
          (delete_consumer S (at_key c e) (fetch_consumer_info S (at_key c e) w).1).1.log
  unfolding fetch_consumer_info delete_consumer
  deletes c e w i (member, key) h s x idle real =
      ((refl, (i, x, idle), real, (e, member, s, ap (λ k. at_key k e) key)), h)

  guarded : Keeps S opts m.generated_at (Own m) (λ w _. IsGuarded opts m w.log)
  guarded = record {
    dial = λ c w r h. h;
    close = λ c w r h. h;
    unreachable = λ c text e w r _ h. h;
    entry = λ c e w r q h.
        apply_entry_cases S c opts m.generated_at e w r (λ w' _. IsGuarded opts m w'.log)
          (record {
            skipped = λ _. h;
            absent = λ _ _. asks c e w h;
            unknown = λ text _ _. asks c e w h;
            owned = λ i _ _ _. asks c e w h;
            busy = λ i _ _ _. asks c e w h;
            previewed = λ i _ _ _ _. asks c e w h;
            refused = λ i text s x idle real _. deletes c e w i q h s x idle real;
            removed = λ i s x idle real _. deletes c e w i q h s x idle real;
          });
  }

-- Every delete request that `Apply` sends follows at once, with no other request between, on an
-- answer of the server about the same consumer which says that it is there, not protected and not
-- active since the manifest was generated; the consumer is that of an entry of the manifest that is
-- not skipped, and the run is no dry run. This holds for every server, whatever it does between two
-- requests.
pub apply-IsGuarded :
    (S : Server) (order : List String) (m : Manifest) (opts : Options) (w : Session S)
    → w.log ≡ []
    → IsGuarded opts m (apply S order m opts w).0.log
apply-IsGuarded S order m opts w fresh =
    apply-keeps S order m opts (guarded S opts m) (In-All m.entries m.entries (λ e i. i)) w
      (rw fresh tt)
