-- ===== src/Endpoints/Transfers.antt =====
-- packages/shared/src/endpoints.ts: the paths of file transfers.
use server_hub.Prelude.{ℕ, [], ◌∷◌, Option}
use server_hub.Text.{Text, codes}
use server_hub.Routing.{lit, Template, num, enc}
use server_hub.Endpoints.Parts.{api, default}

unfoldable pub transfers_files : Option Text → Template
transfers_files path = api ∷ lit "/transfers/files?path=" ∷ enc (default (codes "/") path) ∷ []

unfoldable pub transfers_file_metadata : Text → Template
transfers_file_metadata path = api ∷ lit "/transfers/files/metadata?path=" ∷ enc path ∷ []

unfoldable pub transfers_download : Text → Template
transfers_download path = api ∷ lit "/transfers/files/download?path=" ∷ enc path ∷ []

unfoldable pub transfers_folder_size : Text → Template
transfers_folder_size path = api ∷ lit "/transfers/files/size?path=" ∷ enc path ∷ []

unfoldable pub transfers_upload : Option Text → Template
transfers_upload dest_dir =
    api ∷ lit "/transfers/files/upload?path=" ∷ enc (default (codes "/") dest_dir) ∷ []

unfoldable pub transfers_rename : Template
transfers_rename = api ∷ lit "/transfers/files" ∷ []

unfoldable pub transfers_delete : Template
transfers_delete = api ∷ lit "/transfers/files" ∷ []

unfoldable pub transfers_move : Template
transfers_move = api ∷ lit "/transfers/files/move" ∷ []

unfoldable pub transfers_copy : Template
transfers_copy = api ∷ lit "/transfers/files/copy" ∷ []

unfoldable pub transfers_zip : Template
transfers_zip = api ∷ lit "/transfers/files/zip" ∷ []

unfoldable pub transfers_chunk : Text → ℕ → Template
transfers_chunk upload_id index =
    api ∷ lit "/transfers/files/chunk?upload_id=" ∷ enc upload_id ∷ lit "&index=" ∷ num index ∷ []

unfoldable pub transfers_chunk_finalize : Template
transfers_chunk_finalize = api ∷ lit "/transfers/files/chunk/finalize" ∷ []

unfoldable pub transfers_bulk_rename : Template
transfers_bulk_rename = api ∷ lit "/transfers/files/bulk-rename" ∷ []

unfoldable pub transfers_mkdir : Template
transfers_mkdir = api ∷ lit "/transfers/directories" ∷ []

unfoldable pub transfers_search : Text → Option Text → Template
transfers_search query path =
    api
    ∷ lit "/transfers/search?q="
    ∷ enc query
    ∷ lit "&path="
    ∷ enc (default (codes "/") path)
    ∷ []

unfoldable pub transfers_storage : Template
transfers_storage = api ∷ lit "/transfers/storage" ∷ []

unfoldable pub transfers_storage_breakdown : Template
transfers_storage_breakdown = api ∷ lit "/transfers/storage/breakdown" ∷ []

unfoldable pub transfers_trash : Template
transfers_trash = api ∷ lit "/transfers/trash" ∷ []

unfoldable pub transfers_trash_restore : Template
transfers_trash_restore = api ∷ lit "/transfers/trash/restore" ∷ []

unfoldable pub transfers_activity : Option ℕ → Template
transfers_activity limit = api ∷ lit "/transfers/activity?limit=" ∷ num (default 100 limit) ∷ []
