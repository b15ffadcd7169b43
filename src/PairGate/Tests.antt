-- ===== src/PairGate/Tests.antt =====
-- A device that asks, is approved, or is denied.
use ferri_sync.Prelude.{ℕ, ◌≡◌, refl, false, List, [], ◌∷◌, none, some, string_eq}
use ferri_sync.Prelude.Int.{pos}
use ferri_sync.PairGate.{Gate, confirm, accept, hold, is_known, admit, approve_pairing}
use ferri_sync.Storage.Devices.{get_device_by_cert_fingerprint}
use ferri_sync.Protocol.{RemoteFolderPairRequest}
use ferri_sync.Storage.{empty_database}
use ferri_sync.Storage.Devices.{DeviceRow, get_device_name}
use ferri_sync.PairGate.FolderPairs.{
  FolderGate, approved, grant_of, approve_folder_pair, request_folder_pair,
}
use ferri_sync.PairGate.Grants.{request-approve_folder_pair, approve_folder_pair-name}
use ferri_sync.PairGate.Operator.{admit-approve_pairing}

abbrev digest : List ℕ → List ℕ
digest [] = []
digest (b ∷ bytes) = b ∷ []

abbrev open_gate : Gate
open_gate = record { pending = []; denied = []; devices = [] }

stranger : is_known digest (some (1 ∷ 2 ∷ [])) open_gate ≡ false
unfolding is_known get_device_by_cert_fingerprint
stranger = refl

admit-approve_pairing_example :
    let (held, answer, event) = admit digest confirm "d1" "Phone" (some (1 ∷ 2 ∷ [])) open_gate in
    (answer ≡ hold)
    × (event ≡ some (record { name = "Phone"; id = "d1" }))
    × (admit digest confirm "d1" "Phone 2" (some (1 ∷ 2 ∷ [])) held ≡ (held, hold, none))
    × ((admit digest confirm "d1" "Phone 2"
          (some (1 ∷ 2 ∷ []))
          (approve_pairing (pos 7) "d1" "My phone" held)).1
        ≡ accept)
admit-approve_pairing_example =
    admit-approve_pairing digest (pos 7) "d1" "Phone" "My phone" "Phone 2" (1 ∷ 2 ∷ []) open_gate
      stranger refl refl

abbrev own_row : DeviceRow
own_row = record { name = "me"; cert_der = none; last_seen = none; last_addr = none }

abbrev open_folders : FolderGate
open_folders = record {
  folder_pending = [];
  folder_approved = [];
  folder_denied = [];
  storage = record empty_database { devices = ("d1", own_row) ∷ [] };
}

abbrev request : RemoteFolderPairRequest
request = record {
  device_id = "d2";
  device_name = "Phone";
  folder_guid = "g1";
  name = "Docs";
  mode = "bidirectional";
}

request-approve_folder_pair_example :
    let g' = (approve_folder_pair (pos 1) "d1" "d2" "g1" "Docs" "/a" none open_folders).0 in
    request_folder_pair (pos 2) "d1" "/b" request g' ≡ (g', approved (grant_of "g1" "Docs" none))
request-approve_folder_pair_example =
    request-approve_folder_pair (pos 1) (pos 2) "d1" "d2" "g1" "Docs" "/a" "/b" none request
      open_folders refl refl

approve_folder_pair-name_example :
    get_device_name "d2"
      (approve_folder_pair (pos 1) "d1" "d2" "g1" "Docs" "/a" none open_folders).0.storage.devices
    ≡ some "Docs"
approve_folder_pair-name_example =
    approve_folder_pair-name (pos 1) "d1" "d2" "g1" "Docs" "/a" none open_folders
