-- ===== src/Tests/RuleRuns.antt =====
-- The rules of protection and the routing to owners.
use natsie.Base.{false, List, [], ◌∷◌, some, ◌≡◌, ◌≢◌, refl, string_eq, ℕ_eq, ◌==◌, keep, contains}
use natsie.Base.Result.{ok}
use natsie.Go.Path
use natsie.Go.Strings.{trim_space, to_lower}
use natsie.Protect.{Pattern, Config, Protector, new, reason, lookup, opts_out, default_metadata_key}
use natsie.Protect.Rules.{reason-new_default, IsVerdict, new-IsVerdict}
use natsie.Owners.{OwnerConfig, Owner, new_router, new_router_from, match, group, group_of}
use natsie.Owners.Routing.{IsFirstHit, match-IsFirstHit, group_of-group}
use natsie.Tests.Data.{entry}

abbrev any_stream : Pattern
any_stream = record { stream = ""; consumer = "audit-*" }

abbrev config : Config
config = record { metadata_keys = "team" ∷ []; patterns = any_stream ∷ [] }

abbrev protector : Protector
protector = record { keys = default_metadata_key ∷ "team" ∷ []; patterns = any_stream ∷ [] }

new-config : new config ≡ ok protector
unfolding new string_eq ℕ_eq trim_space contains Path.match
new-config = refl

marked : lookup default_metadata_key ((default_metadata_key, "yes") ∷ []) ≡ some "yes"
unfolding lookup string_eq
marked = refl

yes_stays : opts_out "yes" ≡ false
unfolding opts_out string_eq to_lower trim_space ℕ_eq contains
yes_stays = refl

reason-new_default_example :
    reason (some protector) "ORDERS" "old" ((default_metadata_key, "yes") ∷ []) ≢ ""
reason-new_default_example =
    reason-new_default config "ORDERS" "old" "yes" ((default_metadata_key, "yes") ∷ []) new-config
      marked yes_stays

new-IsVerdict_example : IsVerdict config (new config)
new-IsVerdict_example = new-IsVerdict config

abbrev teams : List OwnerConfig
teams = record { name = "pay"; notify = []; streams = "ORDERS" ∷ []; consumer_prefix = [] } ∷ []

abbrev owners : List Owner
owners = record { name = "pay"; streams = "ORDERS" ∷ []; consumer_prefix = [] } ∷ []

router : new_router teams ≡ ok owners
unfolding new_router new_router_from string_eq
router = refl

match-IsFirstHit_example : IsFirstHit (entry "old") (match owners (entry "old")) owners
match-IsFirstHit_example = match-IsFirstHit teams (entry "old") router

group_of-group_example :
    group_of "pay" (group owners (entry "old" ∷ entry "new" ∷ []))
    ≡ keep (λ e. match owners e == "pay") (entry "old" ∷ entry "new" ∷ [])
group_of-group_example = group_of-group owners "pay" (entry "old" ∷ entry "new" ∷ [])
