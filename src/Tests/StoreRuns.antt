-- ===== src/Tests/StoreRuns.antt =====
-- The store and the manifest file, with the format of one document.
use natsie.Base.{String, false, List, [], ◌∷◌, none, ◌≡◌, refl, string_eq, ℕ_eq}
use natsie.Base.Result.{ok}
use natsie.Go.Os.{Fs, folder, file, stat, find, put, erase, write_file, remove}
use natsie.Manifest.{read, write}
use natsie.Manifest.RoundTrip.{read-write, NoClobber, write-NoClobber}
use natsie.Store.{File, of_manifest, get, delete, valid_id, id_rest, is_alphanumeric, path}
use natsie.Store
use natsie.Store.Refinement.{Op, storing, removing, run, apply_ops, get-run}
use natsie.Go.Strings.{count}
use natsie.Tests.Data.{old_and_new, one_document, one_document-RoundTrips}

abbrev disk : Fs
disk = record { nodes = ("/m", folder) ∷ []; faults = λ p. none }

abbrev written : String → Fs
written path = record { nodes = ("/m", folder) ∷ (path, file "doc") ∷ []; faults = λ p. none }

abbrev store : File
store = record { dir = "/m" }

written_now :
    write (one_document old_and_new) disk "/m/x" old_and_new false ≡ (ok tt, written "/m/x")
unfolding write string_eq ℕ_eq stat find write_file put
written_now = refl

read-write_example : read (one_document old_and_new) (written "/m/x") "/m/x" ≡ ok old_and_new
read-write_example =
    read-write (one_document old_and_new) disk "/m/x" old_and_new false
      (one_document-RoundTrips old_and_new) refl written_now

abbrev x_path : String
x_path = "/m/x"

write-NoClobber_example :
    NoClobber
      (one_document old_and_new)
      disk
      x_path
      old_and_new
      false
      (write (one_document old_and_new) disk x_path old_and_new false)
write-NoClobber_example = write-NoClobber (one_document old_and_new) disk x_path old_and_new false

abbrev ops : List Op
ops = storing "id" old_and_new ∷ removing "id" ∷ storing "id" old_and_new ∷ []

ops-run : run (one_document old_and_new) store ops disk ≡ ok (written "/m/id.yaml")
unfolding run Store.put Store.delete write string_eq ℕ_eq valid_id count write_file stat find put
    remove erase
ops-run = refl

get-run_example :
    get (one_document old_and_new) store (written "/m/id.yaml") "id"
    ≡ apply_ops ops (get (one_document old_and_new) store disk) "id"
get-run_example =
    get-run (one_document old_and_new) store ops disk (written "/m/id.yaml") "id"
      (one_document-RoundTrips old_and_new) (refl, (tt, (refl, tt))) ops-run
