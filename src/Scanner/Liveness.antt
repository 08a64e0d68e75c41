-- ===== src/Scanner/Liveness.antt =====
-- The liveness test of a scan (`classify`) against the one of the cleanup (`isActive`).
use natsie.Base.{
  true, false, Option, none, some, string_eq, ℕ_eq, ◌≡◌, ◌≢◌, refl, arith, ◌⊎◌, inl, inr, ◌≤◌,
  Bool-cases, cons-ne-nil, ◌↔◌,
}
use natsie.Base.Int.{pos, ltb_ℤ, ◌≤ℤ◌, ◌<ℤ◌}
use natsie.Go.Time.{Time, Duration, sub}
use natsie.Cleanup.Nats.{ConsumerInfo}
use natsie.Cleanup.{is_active}
use natsie.Scanner.Api.{ConsumerState, to_int64}
use natsie.Scanner.Classify.{active, stale, last_ack_of, status_of, status_eq}

-- The answer that the cleanup gets about the same consumer.
abbrev pub info_of : ConsumerState → ConsumerInfo
info_of s = record {
  error = none;
  push_bound = s.push_bound;
  num_waiting = s.num_waiting;
  metadata = s.metadata;
  last_active = s.ack_last;
}

-- Not bound, with no waiters, not acked within the duration, and with a backlog or an ack at all.
pub record IsQuiet (now : Time) (min_idle : Duration) (s : ConsumerState) : Type 0 where
  pub unbound : s.push_bound ≡ false
  pub no_waiters : s.num_waiting ≤ℤ pos 0
  pub not_recent : (last_ack_of s ≡ 0) ⊎ (min_idle ≤ℤ sub now (last_ack_of s))
  pub used : (to_int64 s.num_pending ≢ pos 0) ⊎ (last_ack_of s ≢ 0)

-- A consumer is STALE exactly if it is not push-bound, has no pull waiters, has not acked within
-- MinIdle, and has pending messages or has acked at some time.
pub status_of-stale_iff :
    (now : Time) (min_idle : Duration) (s : ConsumerState)
    → (status_of now min_idle s ≡ stale) ↔ IsQuiet now min_idle s
unfolding status_of
status_of-stale_iff now min_idle s = (λ h. quiet h, λ q. ground arith)
  where
    quiet : status_of now min_idle s ≡ stale → IsQuiet now min_idle s
    quiet h = record {
      unbound = ground arith;
      no_waiters = ground arith;
      not_recent = ground arith;
      used = ground arith;
    }

sub_nonneg : (now t : Time) (d : Duration) → pos 0 ≤ℤ d → d ≤ℤ sub now t → t ≤ now
unfolding sub
sub_nonneg now t d h k = ground arith

-- With a MinIdle that is not negative and a manifest generated at the scan or later, a consumer that
-- the scan calls STALE and that has not changed since passes the liveness test of the cleanup.
pub stale-is_active :
    (now at : Time) (min_idle : Duration) (s : ConsumerState)
    → pos 0 ≤ℤ min_idle
    → now ≤ at
    → status_of now min_idle s ≡ stale
    → is_active (info_of s) at ≡ ""
unfolding is_active
stale-is_active now at min_idle s nonneg later h =
    quiet s.ack_last refl ((status_of-stale_iff now min_idle s).0 h)
  where
    quiet :
        (o : Option Time) → s.ack_last ≡ o → IsQuiet now min_idle s → is_active (info_of s) at ≡ ""
    quiet none e q = ground arith
    quiet (some t) e q = ground (arith, sub_nonneg now t min_idle nonneg)

-- A consumer that is push-bound or has pull waiters is ACTIVE for the scan and preserved by the
-- cleanup, whatever the times are.
pub bound_preserved :
    (now at : Time) (min_idle : Duration) (s : ConsumerState)
    → (s.push_bound ≡ true) ⊎ (pos 0 <ℤ s.num_waiting)
    → (status_of now min_idle s ≡ active) × (is_active (info_of s) at ≢ "")
unfolding status_of is_active
bound_preserved now at min_idle s h = (
  ground arith,
  λ e. elim (Bool-cases s.push_bound) [
    | inl b ↦ cons-ne-nil _ _ (rw (b, is_active) at e)
    | inr b ↦
        let waits : ltb_ℤ (pos 0) s.num_waiting ≡ true = ground arith in
        cons-ne-nil _ _ (rw (b, waits, is_active) at e)
  ],
)

-- A consumer that is not bound, has no waiters, has never acked and has pending messages is STALE for
-- every MinIdle, however short ago it was created, and the cleanup does not preserve it.
pub new_consumer_stale :
    (now at : Time) (min_idle : Duration) (s : ConsumerState)
    → s.push_bound ≡ false
    → s.num_waiting ≤ℤ pos 0
    → s.ack_last ≡ none
    → to_int64 s.num_pending ≢ pos 0
    → (status_of now min_idle s ≡ stale) × (is_active (info_of s) at ≡ "")
unfolding is_active
new_consumer_stale now at min_idle s unbound waiters never pending = (
  (status_of-stale_iff now min_idle s).1 (record {
    unbound = unbound;
    no_waiters = waiters;
    not_recent = inl (rw never);
    used = inl pending;
  }),
  ground arith,
)
