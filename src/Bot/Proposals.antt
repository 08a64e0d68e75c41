-- ===== src/Bot/Proposals.antt =====
-- What the makers of manifests put into them.
use natsie.Base.{
  String, Bool, false, List, [], ◌∷◌, ◌==◌, string_eq, if◌then◌else◌, keep, map, ◌≡◌, refl, arith,
  All,
}
use natsie.Go.Time.{Time}
use natsie.Scanner.Classify.{Row, Options, stale, status_eq}
use natsie.Bot.{
  Schedule, stale_entries, build_manifest, build_scan_manifest, build_manifest_of_scan,
  unmanaged_entries, entry_of, explained,
}

-- Another system has the consumer, or it has been renamed.
abbrev pub IsPlain : Row → Type 0
IsPlain r = (r.managed ≡ "") × (r.renamed_to ≡ "")

entries_agree : (rows : List Row) → All IsPlain rows → unmanaged_entries rows ≡ stale_entries rows
unfolding unmanaged_entries stale_entries
entries_agree [] h = refl
entries_agree (r ∷ rows) h = ground (arith, h.0, entries_agree rows h.1)

-- On rows of which none is managed or renamed, the manifests of the command line, of the bot and of
-- the chat have the same entries.
pub manifests_agree :
    (short short' : String) (now now' now'' : Time) (s : Schedule) (ctx ctx' peer : String)
    (opts opts' : Options) (rows : List Row)
    → All IsPlain rows
    → ((build_manifest_of_scan short now rows ctx peer opts).entries
        ≡ (build_manifest short now' s rows).entries)
      × ((build_scan_manifest short' now'' ctx' opts' rows).entries
          ≡ (build_manifest short now' s rows).entries)
unfolding build_manifest build_scan_manifest build_manifest_of_scan
manifests_agree short short' now now' now'' s ctx ctx' peer opts opts' rows h =
    (entries_agree rows h, refl)

abbrev pub is_proposed : Row → Bool
is_proposed r = if r.status == stale then r.managed == "" else false

-- The manifest of the command line has an entry for each row that is stale and not managed, in the
-- order of the rows, and no other; a row that is also managed is in the manifest of the bot.
pub proposals_split :
    (short : String) (now now' : Time) (s : Schedule) (ctx peer : String) (opts : Options)
    (rows : List Row)
    → ((build_manifest_of_scan short now rows ctx peer opts).entries
        ≡ map explained (keep is_proposed rows))
      × ((build_manifest short now' s rows).entries
          ≡ map entry_of (keep (λ r. r.status == stale) rows))
unfolding build_manifest build_manifest_of_scan unmanaged_entries stale_entries
proposals_split short now now' s ctx peer opts [] = (refl, refl)
proposals_split short now now' s ctx peer opts (r ∷ rows) =
    let (h, k) = proposals_split short now now' s ctx peer opts rows in
    (ground (arith, h), ground (arith, k))
