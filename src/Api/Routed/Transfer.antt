-- ===== src/Api/Routed/Transfer.antt =====
-- Every call of client/src/lib/api.ts about file transfers meets a
-- route of server/cmd/server/main.go.
use server_hub.Prelude.{true, refl}
use server_hub.Routing.{Access, viewer, operator}
use server_hub.Api.Served.{Served, served}
use server_hub.Server.Routes.{routes}
use server_hub.Endpoints.Transfers
use server_hub.Api.Transfer.{
  TransferCall, list, metadata, folder_size, search, storage, breakdown, trash, activity, mkdir,
  rename, move, copy, remove, trash_move, trash_restore, trash_purge, transfer_request,
}

-- The access that the server asks for the call.
abbrev pub transfer_access : TransferCall → Access
transfer_access (list path) = viewer
transfer_access (metadata path) = viewer
transfer_access (folder_size path) = viewer
transfer_access (search q path) = viewer
transfer_access storage = viewer
transfer_access breakdown = viewer
transfer_access trash = viewer
transfer_access (activity limit) = viewer
transfer_access (mkdir path) = operator
transfer_access (rename path new_name) = operator
transfer_access (move source destination) = operator
transfer_access (copy source destination) = operator
transfer_access (remove path recursive) = operator
transfer_access (trash_move path) = operator
transfer_access (trash_restore id) = operator
transfer_access trash_purge = operator

pub transfer_call-Served :
    (c : TransferCall) → Served (transfer_access c) (routes true) (transfer_request c)
unfolding transfer_request routes Transfers.transfers_activity Transfers.transfers_copy
    Transfers.transfers_delete Transfers.transfers_file_metadata Transfers.transfers_files
    Transfers.transfers_folder_size Transfers.transfers_mkdir Transfers.transfers_move
    Transfers.transfers_rename Transfers.transfers_search Transfers.transfers_storage
    Transfers.transfers_storage_breakdown Transfers.transfers_trash
    Transfers.transfers_trash_restore
transfer_call-Served (list path) =
    served viewer (routes true) (transfer_request (list path)) refl tt
transfer_call-Served (metadata path) =
    served viewer (routes true) (transfer_request (metadata path)) refl tt
transfer_call-Served (folder_size path) =
    served viewer (routes true) (transfer_request (folder_size path)) refl tt
transfer_call-Served (search q path) =
    served viewer (routes true) (transfer_request (search q path)) refl tt
transfer_call-Served storage = served viewer (routes true) (transfer_request storage) refl tt
transfer_call-Served breakdown = served viewer (routes true) (transfer_request breakdown) refl tt
transfer_call-Served trash = served viewer (routes true) (transfer_request trash) refl tt
transfer_call-Served (activity limit) =
    served viewer (routes true) (transfer_request (activity limit)) refl tt
transfer_call-Served (mkdir path) =
    served operator (routes true) (transfer_request (mkdir path)) refl tt
transfer_call-Served (rename path new_name) =
    served operator (routes true) (transfer_request (rename path new_name)) refl tt
transfer_call-Served (move source destination) =
    served operator (routes true) (transfer_request (move source destination)) refl tt
transfer_call-Served (copy source destination) =
    served operator (routes true) (transfer_request (copy source destination)) refl tt
transfer_call-Served (remove path recursive) =
    served operator (routes true) (transfer_request (remove path recursive)) refl tt
transfer_call-Served (trash_move path) =
    served operator (routes true) (transfer_request (trash_move path)) refl tt
transfer_call-Served (trash_restore id) =
    served operator (routes true) (transfer_request (trash_restore id)) refl tt
transfer_call-Served trash_purge =
    served operator (routes true) (transfer_request trash_purge) refl tt
