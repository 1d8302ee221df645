-- ===== src/Api/Transfer.antt =====
-- client/src/lib/api.ts: the calls of `transfersApi` about file transfers.
use server_hub.Prelude.{ℕ, Bool, false, [], ◌∷◌, Option, some}
use server_hub.Text.{Text, codes}
use server_hub.Json.{str, bool, object}
use server_hub.Routing.{post, patch, delete}
use server_hub.Endpoints.Parts.{default}
use server_hub.Api.Request.{Request, fetched, sent, with_body}
use server_hub.Endpoints.Transfers

pub data TransferCall : Type 0 where
  list : Option Text → TransferCall
  metadata : Text → TransferCall
  folder_size : Text → TransferCall
  search : Text → Option Text → TransferCall
  storage : TransferCall
  breakdown : TransferCall
  trash : TransferCall
  activity : Option ℕ → TransferCall
  mkdir : Text → TransferCall
  rename : Text → Text → TransferCall
  move : Text → Text → TransferCall
  copy : Text → Text → TransferCall
  remove : Text → Option Bool → TransferCall
  trash_move : Text → TransferCall
  trash_restore : Text → TransferCall
  trash_purge : TransferCall

unfoldable pub transfer_request : TransferCall → Request
transfer_request (list path) = fetched (Transfers.transfers_files (some (default (codes "/") path)))
transfer_request (metadata path) = fetched (Transfers.transfers_file_metadata path)
transfer_request (folder_size path) = fetched (Transfers.transfers_folder_size path)
transfer_request (search q path) =
    fetched (Transfers.transfers_search q (some (default (codes "/") path)))
transfer_request storage = fetched Transfers.transfers_storage
transfer_request breakdown = fetched Transfers.transfers_storage_breakdown
transfer_request trash = fetched Transfers.transfers_trash
transfer_request (activity limit) =
    fetched (Transfers.transfers_activity (some (default 100 limit)))
transfer_request (mkdir path) =
    with_body post Transfers.transfers_mkdir (object (("path", str path) ∷ []))
transfer_request (rename path new_name) =
    with_body patch Transfers.transfers_rename
      (object (("path", str path) ∷ ("new_name", str new_name) ∷ []))
transfer_request (move source destination) =
    with_body post Transfers.transfers_move
      (object (("source", str source) ∷ ("destination", str destination) ∷ []))
transfer_request (copy source destination) =
    with_body post Transfers.transfers_copy
      (object (("source", str source) ∷ ("destination", str destination) ∷ []))
transfer_request (remove path recursive) =
    with_body delete Transfers.transfers_delete
      (object (("path", str path) ∷ ("recursive", bool (default false recursive)) ∷ []))
transfer_request (trash_move path) =
    with_body post Transfers.transfers_trash (object (("path", str path) ∷ []))
transfer_request (trash_restore id) =
    with_body post Transfers.transfers_trash_restore (object (("id", str id) ∷ []))
transfer_request trash_purge = sent delete Transfers.transfers_trash
