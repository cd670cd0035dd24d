-- ===== src/Storage/StoragePaths.antt =====
-- rust/filedrop-core/src/storage/paths.rs: the locations below the application's directory.
use filedrop.Base.{Option, none, some, List, [], ◌∷◌, Text, text}
use filedrop.Base.Paths.{push}
use filedrop.Errors.{Result, io, ok, err}

pub record StoragePaths : Type 0 where
  pub app_data_dir : Text

unfoldable pub received_files_dir : StoragePaths → Text
unfolding push
received_files_dir p = push p.app_data_dir (text "received")

unfoldable pub staging_dir : StoragePaths → Text
unfolding push
staging_dir p = push p.app_data_dir (text "staging")

unfoldable pub history_file : StoragePaths → Text
unfolding push
history_file p = push p.app_data_dir (text "history.json")

-- `tokio::fs::create_dir_all(dir).await?` one after the other, by the failure for each path; beside the
-- result, the directories that have been created.
unfoldable pub create_all : (Text → Option Text) → List Text → Result (Unit {0}) × List Text
create_all fault [] = (ok tt, [])
create_all fault (dir ∷ dirs) =
    let rest = create_all fault dirs in
    elim (fault dir) [ some e ↦ (err (io e), []) | none ↦ (rest.0, dir ∷ rest.1) ]

unfoldable pub ensure_dirs : (Text → Option Text) → StoragePaths → Result (Unit {0}) × List Text
unfolding create_all received_files_dir staging_dir
ensure_dirs fault p = create_all fault (p.app_data_dir ∷ received_files_dir p ∷ staging_dir p ∷ [])
