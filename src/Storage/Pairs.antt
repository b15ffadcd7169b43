-- ===== src/Storage/Pairs.antt =====
-- Removing and moving the pairs of a folder in ferrisync-core/src/storage/mod.rs.
use Prim.Native.String.{compare}
use text.Mathlib.Text.{is_le}
use ferri_sync.Prelude.{
  Eq, ℕ, ◌+◌, Bool, true, false, ◌&&◌, List, [], ◌∷◌, ◌++◌, map, Option, none, some, String,
  string_eq, nat_eq, pair_eq, ◌==◌, if◌then◌else◌, is_some, keep, length,
}
use ferri_sync.Prelude.Maps.{HashMap, lookup, remove}
use ferri_sync.Version.{DeviceId}
use ferri_sync.Storage.{Database, PairRow}
use ferri_sync.Storage.Devices.{DeviceRow}
use ferri_sync.Prelude.Options.{option_bind}
use ferri_sync.Storage.References.{enforce}
use ferri_sync.Storage.Tables.{first_row, order_by, delete_where}
use ferri_sync.Storage.Folders.{at_path, of_folder, of_device}

-- `SELECT COUNT(*)`, and the header goes with its last pair.
-- That fails while metadata or history of the folder is there.
abbrev pub drop_unpaired : ℕ → Database → Option Database
drop_unpaired folder_id db =
    if length (keep (of_folder folder_id) db.folder_devices) == 0
    then enforce (record db { sync_folders = remove folder_id db.sync_folders })
    else some db

unfoldable pub remove_folder_device : ℕ → DeviceId → Database → Option (Database × Bool)
unfolding enforce
remove_folder_device folder_id device_id db =
    let (rows, n) =
      delete_where (λ kv. of_folder folder_id kv && of_device device_id kv) db.folder_devices in
    if n == 0
    then some (db, false)
    else option_bind (drop_unpaired folder_id (record db { folder_devices = rows }))
        (λ db'. some (db', true))

-- The pairs that one round of `remove_sync_folders` deletes.
abbrev pub selects : ℕ → Option DeviceId → (ℕ × DeviceId) × PairRow → Bool
selects fid none kv = of_folder fid kv
selects fid (some dev) kv = of_folder fid kv && of_device dev kv

-- The loop over the folder ids: the database after it and the number of pairs deleted.
unfoldable pub remove_pairs : List ℕ → Option DeviceId → Database → Option (Database × ℕ)
unfolding enforce
remove_pairs [] device_id db = some (db, 0)
remove_pairs (fid ∷ fids) device_id db =
    let (rows, n) = delete_where (selects fid device_id) db.folder_devices in
    option_bind (drop_unpaired fid (record db { folder_devices = rows }))
      (λ db'. option_bind (remove_pairs fids device_id db') (λ rest. some (rest.0, n + rest.1)))

unfoldable pub remove_sync_folders : String → Option DeviceId → Database → Option (Database × ℕ)
unfolding remove_pairs
remove_sync_folders local_path device_id db =
    remove_pairs (map (λ kv. kv.0) (keep (at_path local_path) db.sync_folders)) device_id db

-- Two statements without a transaction: the database after them, and whether both succeeded.
unfoldable pub remove_sync_folder_by_id : ℕ → Database → Database × Bool
unfolding enforce
remove_sync_folder_by_id folder_id db =
    let unpaired = record db {
      folder_devices = (delete_where (of_folder folder_id) db.folder_devices).0;
    } in
    elim (enforce (record unpaired { sync_folders = remove folder_id db.sync_folders })) [
      | none ↦ (unpaired, false)
      | some db' ↦ (db', true)
    ]

-- `(device_id, mode, remote_path, enabled)`
unfoldable pub folder_pairs : ℕ → Database → List (DeviceId × String × Option String × Bool)
folder_pairs folder_id db =
    order_by (λ a b. is_le (compare (a.0) (b.0)))
      (map (λ kv. (kv.0.1, PairRow.mode kv.1, PairRow.remote_path kv.1, PairRow.enabled kv.1))
        (keep (of_folder folder_id) db.folder_devices))

-- The device of the first pair of a folder, by row id.
abbrev pub first_pair : ℕ → Database → Option DeviceId
first_pair folder_id db = elim (first_row (of_folder folder_id) db.folder_devices) [
  | none ↦ none
  | some kv ↦ some kv.0.1
]

-- `INSERT OR IGNORE INTO devices (id, name)`
abbrev pub ignore_insert : DeviceId → HashMap DeviceId DeviceRow → HashMap DeviceId DeviceRow
ignore_insert id devices =
    if is_some (lookup id devices)
    then devices
    else devices
      ++ (id, record { name = id; cert_der = none; last_seen = none; last_addr = none }) ∷ []

-- `UPDATE folder_devices SET device_id = ?1 WHERE folder_id = ?2 AND device_id = ?3`: the row keeps
-- its place.
abbrev pub rekey {ℓ κ} : {K : Type ℓ} {V : Type κ} ⦃e : Eq K⦄ → K → K → HashMap K V → HashMap K V
rekey old new [] = []
rekey old new ((key, row) ∷ rows) = (if key == old then new else key, row) ∷ rekey old new rows

abbrev pub move_pair : ℕ → DeviceId → Option DeviceId → Database → Option Database
move_pair folder_id new_device_id none db = some db
move_pair folder_id new_device_id (some old) db =
    if old == new_device_id
    then some db
    else if is_some (lookup (folder_id, new_device_id) db.folder_devices)
    then none
    else enforce (record db {
      devices = ignore_insert new_device_id db.devices;
      folder_devices = rekey (folder_id, old) (folder_id, new_device_id) db.folder_devices;
    })

-- An error, which rolls back, when the new key is taken: the primary key of the table.
unfoldable pub set_folder_device : ℕ → DeviceId → Database → Option Database
unfolding enforce
set_folder_device folder_id new_device_id db =
    move_pair folder_id new_device_id (first_pair folder_id db) db
