-- ===== src/Chat/Proposal.antt =====
-- What a scan of the chat leaves in the store.
use natsie.Base.{
  ◌<◌, String, false, List, [], ◌∷◌, ◌==◌, ◌≡◌, ◌≢◌, refl, arith, ℕ_eq, count_if, length,
}
use natsie.Base.Result.{ok}
use natsie.Bot.{build_scan_manifest, stale_entries}
use natsie.Manifest.RoundTrip.{RoundTrips}
use natsie.Scanner.Classify.{Row, status_eq}
use natsie.Store.{put, get}
use natsie.Store.Laws.{get-put, get-put-other}
use natsie.Chat.Api.{Deps, Clock, World}
use natsie.Chat.Confined.{proposal}
use natsie.Chat.Scan.{propose, is_stale, chat_id, format_scan_reply}

length-stale_entries : (rows : List Row) → length (stale_entries rows) ≡ count_if is_stale rows
unfolding stale_entries
length-stale_entries [] = refl
length-stale_entries (r ∷ rows) = ground (arith, length-stale_entries rows)

-- After a scan of the chat that finds stale consumers and can store its manifest, the store has the
-- manifest under the id of the reply, if the YAML package reads back what it wrote, and what it had
-- under every other id; the manifest has as many entries as the reply says that there are stale
-- consumers.
pub get-propose :
    (d : Deps) (clock : Clock) (ctx stream : String) (rows : List Row) (w : World)
    → RoundTrips d.yaml
    → 0 < count_if is_stale rows
    → (put d.yaml d.store w.fs (chat_id clock.stamped ctx) (proposal d clock ctx stream rows)).0
      ≡ ok tt
    → let (reply, w') = propose d clock ctx stream rows w in
      let id = chat_id clock.stamped ctx in
      let m = proposal d clock ctx stream rows in
      (get d.yaml d.store w'.fs id ≡ ok m)
      × ((j : String) → id ≢ j → get d.yaml d.store w'.fs j ≡ get d.yaml d.store w.fs j)
      × (reply ≡ format_scan_reply d ctx id m (length m.entries))
unfolding propose ℕ_eq build_scan_manifest
get-propose d clock ctx stream rows w back some_stale stored =
    let id = chat_id clock.stamped ctx in
    let m = proposal d clock ctx stream rows in
    let counted : (count_if is_stale rows == 0) ≡ false = ground (arith, some_stale) in
    let pair : put d.yaml d.store w.fs id m ≡ (ok tt, (put d.yaml d.store w.fs id m).1) =
      ground (arith, stored) in
    rw (counted, stored, propose)
      (
        get-put d.yaml d.store w.fs id m back refl pair,
        λ j apart. get-put-other d.yaml d.store w.fs id j m apart,
        rw (length-stale_entries rows) refl,
      )
