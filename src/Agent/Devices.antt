-- ===== src/Agent/Devices.antt =====
-- internal/store/repo/{device,workspace}.go on their tables: each operation is one statement, and what
-- it returns is read from the row.
use open_delo.Prelude.{ℕ, String, true, Option, none, some, find, ◌==◌}
use open_delo.Platform.AppError.{Result, ok, err, not_found}
use open_delo.Risk.Level.{DeviceTrust}
use open_delo.Lease.Rows.{encode_time}
use open_delo.Agent.Identity.{Device, Workspace}
use open_delo.Agent.Rows.{device_row, to_device, workspace_row, to_workspace}
use open_delo.Agent.Tables.{row_of, insert_row, update_row}
use open_delo.Agent.Store.{Store, Run, device_schema, workspace_schema}

unfoldable pub create_device : Device → Run Device
create_device d store = elim (insert_row device_schema true (device_row d) store.devices) [
  | err code ↦ (store, err code)
  | ok rows ↦ (record store { devices = rows }, to_device (device_row d))
]

unfoldable pub read_device : Option Device → Result Device
read_device none = err not_found
read_device (some r) = to_device r

unfoldable pub device_by_id : String → Store → Result Device
unfolding read_device
device_by_id id store = read_device (row_of device_schema id store.devices)

unfoldable pub device_by_fingerprint : String → Store → Result Device
unfolding read_device
device_by_fingerprint fingerprint store =
    read_device (find (λ d. d.fingerprint == fingerprint) store.devices)

unfoldable pub device_trust_changed : DeviceTrust → ℕ → Device → Device
unfolding encode_time
device_trust_changed status at d = record d { trust_status = status; updated_at = encode_time at }

unfoldable pub set_device_trust_status : String → DeviceTrust → ℕ → Run Device
set_device_trust_status id status at store =
    elim (update_row device_schema id (device_trust_changed status at) store.devices) [
      | err code ↦ (store, err code)
      | ok (rows, r) ↦ (record store { devices = rows }, to_device r)
    ]

unfoldable pub create_workspace : Workspace → Run Workspace
create_workspace w store =
    elim (insert_row workspace_schema true (workspace_row w) store.workspaces) [
      | err code ↦ (store, err code)
      | ok rows ↦ (record store { workspaces = rows }, to_workspace (workspace_row w))
    ]

unfoldable pub read_workspace : Option Workspace → Result Workspace
read_workspace none = err not_found
read_workspace (some r) = to_workspace r

unfoldable pub workspace_by_id : String → Store → Result Workspace
unfolding read_workspace
workspace_by_id id store = read_workspace (row_of workspace_schema id store.workspaces)

unfoldable pub workspace_by_path : String → Store → Result Workspace
unfolding read_workspace
workspace_by_path path store = read_workspace (find (λ w. w.path == path) store.workspaces)

unfoldable pub fingerprint_changed : String → ℕ → Workspace → Workspace
unfolding encode_time
fingerprint_changed fingerprint at w = record w {
  project_fingerprint = fingerprint;
  updated_at = encode_time at;
}

unfoldable pub set_workspace_fingerprint : String → String → ℕ → Run Workspace
set_workspace_fingerprint id fingerprint at store =
    elim (update_row workspace_schema id (fingerprint_changed fingerprint at) store.workspaces) [
      | err code ↦ (store, err code)
      | ok (rows, r) ↦ (record store { workspaces = rows }, to_workspace r)
    ]
