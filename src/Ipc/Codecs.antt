-- ===== src/Ipc/Codecs.antt =====
-- crates/around-engine/src/ipc/handlers.rs: codecs that clients load, and the temporary files of theirs.
-- The file system and the framework of extensions answer through a `World`.
use around.Base.{
  ℕ, Bool, true, false, not, ◌&&◌, ◌==◌, if◌then◌else◌, Option, none, some, List, [], ◌∷◌, map,
  Result, length,
}
use around.Base.Text.{Text, text_eq}
use around.Engine.State.{AroundError}
use around.Engine.Api.{SourceInfo, Opened}
use around.Ipc.Types.{
  codec_load_failed, scanned, loaded, bytes, Message, write_failed, load_failed, removed,
  IpcResponse, ok_response, error_response,
}

-- An entry of the temporary directory: its path, its name where that is UTF-8, and whether
-- `remove_file` succeeds.
pub record Entry : Type 0 where
  pub path : Text
  pub name : Option Text
  pub removable : Bool

-- What is asked outside of the engine.
pub record World : Type 0 where
  pub exists : Text → Bool
  pub source : Text → SourceInfo
  pub open_codec : Text → Result AroundError Opened
  pub temp_entries : List Entry
  -- `around_codec_` and `around_codec_{pid}_`
  pub prefix : Text
  pub our_prefix : Text
  pub index_entries : List (Text × Text)
  -- whether `Framework::load` succeeds
  pub load : Text → Bool
  -- the path of a codec that is sent as bytes, whether it can be written, and its `file_stem`
  pub tmp_path : List ℕ → Text
  pub can_write : List ℕ → Bool
  pub file_stem : Text → Text

-- `str::starts_with`
unfoldable pub starts_with : Text → Text → Bool
starts_with [] text = true
starts_with (c ∷ prefix) [] = false
starts_with (c ∷ prefix) (d ∷ text) = c == d && starts_with prefix text

-- The test for one entry of the temporary directory.
unfoldable pub is_stale : World → Entry → Bool
is_stale w entry = elim entry.name [
  | none ↦ false
  | some name ↦ starts_with w.prefix name && not (starts_with w.our_prefix name) && entry.removable
]

unfoldable pub scan_and_remove_stale_temp_files : World → List Entry → List Text
scan_and_remove_stale_temp_files w [] = []
scan_and_remove_stale_temp_files w (entry ∷ entries) =
    let rest = scan_and_remove_stale_temp_files w entries in
    if is_stale w entry then entry.path ∷ rest else rest

abbrev pub removed_message : List Text → Option Message
removed_message [] = none
removed_message (path ∷ paths) = some (removed (length (path ∷ paths)))

unfoldable pub handle_cleanup : World → IpcResponse
handle_cleanup w =
    let files = scan_and_remove_stale_temp_files w w.temp_entries in
    record ok_response { removed_files = some files; message = removed_message files }

unfoldable pub handle_list_codecs : World → IpcResponse
handle_list_codecs w = record ok_response {
  codecs = some (
      map (λ entry. record { name = entry.0; source = scanned; path = some entry.1 })
        w.index_entries);
}

unfoldable pub handle_load_codec : World → Text → IpcResponse
handle_load_codec w path =
    if w.load path
    then record ok_response {
      codecs = some (record { name = path; source = loaded; path = some path } ∷ []);
    }
    else error_response codec_load_failed load_failed

-- `std::fs::write` and `std::fs::remove_file`
unfoldable pub write_file : Text → List Text → List Text
write_file path [] = path ∷ []
write_file path (f ∷ files) =
    let rest = write_file path files in if text_eq f path then f ∷ files else f ∷ rest

unfoldable pub remove_file : Text → List Text → List Text
remove_file path [] = []
remove_file path (f ∷ files) =
    let rest = remove_file path files in if text_eq f path then rest else f ∷ rest

unfoldable pub handle_load_codec_bytes : World → List ℕ → List Text → IpcResponse × List Text
handle_load_codec_bytes w content files =
    let path = w.tmp_path content in
    if not (w.can_write content)
    then (error_response codec_load_failed write_failed, files)
    else if w.load (w.file_stem path)
    then (
      record ok_response {
        codecs = some (record { name = w.file_stem path; source = bytes; path = some path } ∷ []);
      },
      write_file path files,
    )
    else (error_response codec_load_failed load_failed, remove_file path (write_file path files))
