-- ===== src/Bot/Soundness.antt =====
-- What the check of the configuration guarantees of the schedules.
use natsie.Base.{
  ℕ, ◌+◌, true, List, [], ◌∷◌, none, string_eq, ◌≡◌, ◌≢◌, refl, arith, ◌⊎◌, All, contains,
}
use natsie.Bot.{Schedule, Config, validate, validate_schedules, kind_consumer_stale, kinds}

-- A schedule that is complete, of a known kind, and deletes only if its kind is that of the scan.
abbrev pub IsSound : Schedule → Type 0
IsSound s =
    (s.name ≢ "")
    × (s.cron ≢ "")
    × (s.context ≢ "")
    × (contains kinds s.kind ≡ true)
    × (s.auto_delete ≡ true → (s.kind ≡ "") ⊎ (s.kind ≡ kind_consumer_stale))

validate_schedules-IsSound :
    (i : ℕ) (ss : List Schedule) → validate_schedules i ss ≡ none → All IsSound ss
unfolding validate_schedules
validate_schedules-IsSound i [] e = tt
validate_schedules-IsSound i (s ∷ ss) e =
    (ground arith, validate_schedules-IsSound (i + 1) ss (ground arith))

-- `validateBotConfig` accepts a configuration only if each of its schedules has a name, a cron
-- specification, a context and a known kind, and deletes by itself only as a scan of consumers.
pub validate-IsSound : (b : Config) → validate b ≡ none → All IsSound b.schedules
unfolding validate
validate-IsSound b e = validate_schedules-IsSound 0 b.schedules (looked_at b.schedules refl)
  where
    looked_at : (ss : List Schedule) → b.schedules ≡ ss → validate_schedules 0 b.schedules ≡ none
    looked_at [] f = absurd (ground arith)
    looked_at (s ∷ ss) f = ground arith
