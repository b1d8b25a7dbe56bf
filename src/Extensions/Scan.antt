-- ===== src/Extensions/Scan.antt =====
-- crates/around-extensions/src/lib.rs: `scan` and `fresh_scan`, which fill the index.
use around.Base.{
  Bool, true, false, if◌then◌else◌, Option, none, some, List, [], ◌∷◌, Result, ok, err,
}
use around.Base.Text.{Text, text_eq}
use around.Base.Dict.{Dict, find, put}
use around.Extensions.State.{
  World, Framework, DirEntry, Library, IndexedMeta, FrameworkError, io, contains,
}

-- On Linux.
abbrev pub shared_lib_extensions : List Text
shared_lib_extensions = (b's' ∷ b'o' ∷ []) ∷ []

unfoldable pub is_shared_lib : Option Text → Bool
is_shared_lib none = false
is_shared_lib (some ext) = contains ext shared_lib_extensions

unfoldable pub meta_of : Option Library → Option IndexedMeta
meta_of none = none
meta_of (some lib) = lib.around_meta

unfoldable pub found_at : Text → Option IndexedMeta → Option (Text × IndexedMeta)
found_at path none = none
found_at path (some meta) = some (path, meta)

-- A name that is there keeps its entry.
unfoldable pub keep_first :
    Text × IndexedMeta
    → Option (Text × IndexedMeta)
    → Dict (Text × IndexedMeta)
    → Dict (Text × IndexedMeta)
keep_first found (some existing) index = index
keep_first found none index = put found.1.name found index

unfoldable pub index_extension :
    Option (Text × IndexedMeta) → Dict (Text × IndexedMeta) → Dict (Text × IndexedMeta)
unfolding keep_first
index_extension none index = index
index_extension (some found) index = keep_first found (find found.1.name index) index

-- The first extension of that name among a directory's entries.
unfoldable pub named_entry :
    Text → Option (Text × IndexedMeta) → Option (Text × IndexedMeta) → Option (Text × IndexedMeta)
named_entry name none later = later
named_entry name (some found) later = if text_eq found.1.name name then some found else later

-- A search path that cannot be read is passed over.
unfoldable pub readable : Option (List (Option DirEntry)) → List (Option DirEntry)
readable none = []
readable (some entries) = entries

unfoldable pub or_later :
    Option (Text × IndexedMeta) → Option (Text × IndexedMeta) → Option (Text × IndexedMeta)
or_later none later = later
or_later (some found) later = some found

unfoldable pub indexed_as : Text → Option (Text × IndexedMeta) → Framework → Bool × Framework
indexed_as name none fw = (false, fw)
indexed_as name (some found) fw = (true, record fw { index = put name found fw.index })

module _ (w : World) where
  -- The metadata of a directory's entry, if it is an extension that can be opened.
  unfoldable pub extension_of : Option DirEntry → Option (Text × IndexedMeta)
  unfolding is_shared_lib meta_of found_at
  extension_of none = none
  extension_of (some entry) =
      if is_shared_lib entry.extension
      then found_at entry.path (meta_of (w.open_library entry.path))
      else none

  unfoldable pub scan_entries :
      List (Option DirEntry) → Dict (Text × IndexedMeta) → Dict (Text × IndexedMeta)
  scan_entries [] index = index
  scan_entries (entry ∷ entries) index =
      scan_entries entries (index_extension (extension_of entry) index)

  unfoldable pub scan_readable :
      (Dict (Text × IndexedMeta) → Result FrameworkError (Unit {0}) × Dict (Text × IndexedMeta))
      → Option (List (Option DirEntry))
      → Dict (Text × IndexedMeta)
      → Result FrameworkError (Unit {0}) × Dict (Text × IndexedMeta)
  scan_readable later none index = (err io, index)
  scan_readable later (some entries) index = later (scan_entries entries index)

  -- The loop over the search paths: one that cannot be read ends it, and what was indexed stays.
  unfoldable pub scan_paths :
      List Text
      → Dict (Text × IndexedMeta)
      → Result FrameworkError (Unit {0}) × Dict (Text × IndexedMeta)
  scan_paths [] index = (ok tt, index)
  scan_paths (path ∷ paths) index = scan_readable (scan_paths paths) (w.read_dir path) index

  unfoldable pub scan : List Text → Framework → Result FrameworkError (Unit {0}) × Framework
  scan paths fw =
      let (result, index) = scan_paths paths fw.index in
      (result, record fw { search_paths = paths; index = index })

  unfoldable pub find_in_entries : Text → List (Option DirEntry) → Option (Text × IndexedMeta)
  unfolding named_entry
  find_in_entries name [] = none
  find_in_entries name (entry ∷ entries) =
      named_entry name (extension_of entry) (find_in_entries name entries)

  unfoldable pub find_in_paths : Text → List Text → Option (Text × IndexedMeta)
  unfolding readable or_later
  find_in_paths name [] = none
  find_in_paths name (path ∷ paths) =
      or_later (find_in_entries name (readable (w.read_dir path))) (find_in_paths name paths)

  unfoldable pub fresh_scan : Text → Framework → Bool × Framework
  unfolding indexed_as
  fresh_scan name fw = indexed_as name (find_in_paths name fw.search_paths) fw
