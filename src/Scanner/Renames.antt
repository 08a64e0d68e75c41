-- ===== src/Scanner/Renames.antt =====
-- scanner.go: `detectRenames`. The map `active` is a list of its pairs.
pub mod Latest
pub mod Sound
use natsie.Base.{
  String, Bool, true, false, not, ◌&&◌, ◌||◌, List, [], ◌∷◌, Option, none, some, ◌==◌, ◌!=◌,
  string_eq, if◌then◌else◌, map,
}
use natsie.Go.Time.{is_after}
use natsie.Scanner.Classify.{Row, active, stale, status_eq}

pub record Key : Type 0 where
  pub stream : String
  pub subject : String

abbrev pub Active : Type 0
Active = List (Key × Row)

abbrev pub key_of : Row → Key
key_of r = record { stream = r.stream; subject = r.filter_subject }

abbrev pub same_key : Key → Key → Bool
same_key a b = a.stream == b.stream && a.subject == b.subject

unfoldable pub lookup : Key → Active → Option Row
lookup k [] = none
lookup k ((j, r) ∷ m) = if same_key j k then some r else lookup k m

-- `active[k] = r`
unfoldable pub insert : Key → Row → Active → Active
insert k r [] = (k, r) ∷ []
insert k r ((j, x) ∷ m) = if same_key j k then (k, r) ∷ m else (j, x) ∷ insert k r m

-- The row is a successor that others may have been renamed to.
unfoldable pub is_successor : Row → Bool
is_successor r = r.status == active && r.filter_subject != ""

-- One round of the first loop: the most recently active row of a key stays.
unfoldable pub note : Active → Row → Active
note m r =
    if is_successor r
    then elim (lookup (key_of r) m) [
      | none ↦ insert (key_of r) r m
      | some cur ↦ if is_after r.last_ack cur.last_ack then insert (key_of r) r m else m
    ]
    else m

unfoldable pub note_all : Active → List Row → Active
note_all m [] = m
note_all m (r ∷ rows) = note_all (note m r) rows

-- One round of the second loop.
unfoldable pub annotate : Active → Row → Row
annotate m r =
    if r.status != stale || r.filter_subject == "" then r else elim (lookup (key_of r) m) [
      | none ↦ r
      | some t ↦ if t.consumer != r.consumer then record r { renamed_to = t.consumer } else r
    ]

-- `detectRenames`; with no active row the second loop would change nothing, and is left out.
unfoldable pub detect_renames : List Row → List Row
unfolding note_all note annotate lookup insert is_successor
detect_renames rows = elim (note_all [] rows) [ [] ↦ rows | p ∷ m ↦ map (annotate (p ∷ m)) rows ]
