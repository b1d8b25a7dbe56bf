-- ===== src/Ipc/Files.antt =====
-- crates/around-engine/src/ipc/handlers.rs: what becomes of the temporary files.
use mathlib.Core.List.{Memᴰ}
use around.Base.{ℕ, true, ◌≡◌, ◌↔◌, refl, sym, ap, ◌∙◌, arith, inl, inr, Bool-cases, List, [], ◌∷◌}
use around.Base.Text.{Text, text_eq, text_eq_iff}
use around.Ipc.Types
use around.Ipc.Codecs.{
  World, Entry, is_stale, scan_and_remove_stale_temp_files, write_file, remove_file,
  handle_load_codec_bytes,
}

text_eq_self : (path : Text) → text_eq path path ≡ true
text_eq_self path = (text_eq_iff path path).1 refl

-- `write` and then `remove` of a new file leave the others.
remove_file-write_file :
    (path : Text) (files : List Text)
    → ¬ Memᴰ path files
    → remove_file path (write_file path files) ≡ files
unfolding remove_file write_file
remove_file-write_file path [] new = rw (text_eq_self path) refl
remove_file-write_file path (f ∷ files) new = elim (Bool-cases (text_eq f path)) [
  | inl same ↦ absurd (new (Memᴰ.head (sym ((text_eq_iff f path).0 same))))
  | inr other ↦ rw other (
      rw (other, remove_file)
        (ap (λ fs. f ∷ fs) (remove_file-write_file path files (λ m. new (Memᴰ.tail m)))))
]

-- A codec that is sent as bytes and cannot be written or loaded leaves the temporary files as they were,
-- as long as none had its name before.
pub handle_load_codec_bytes_failed :
    (w : World) (content : List ℕ) (files : List Text)
    → ¬ Memᴰ (w.tmp_path content) files
    → (handle_load_codec_bytes w content files).0.status ≡ Types.error
    → (handle_load_codec_bytes w content files).1 ≡ files
unfolding handle_load_codec_bytes
handle_load_codec_bytes_failed w content files new failed =
    elim (Bool-cases (w.can_write content)) [
      | inr full ↦ rw full refl
      | inl written ↦ elim (Bool-cases (w.load (w.file_stem (w.tmp_path content)))) [
        | inl done ↦ ground (arith, failed)
        | inr unloaded ↦
            rw written (rw unloaded (remove_file-write_file (w.tmp_path content) files new))
      ]
    ]

-- An entry that stands for a path and is stale.
abbrev pub Stale : World → Text → Entry → Type 0
Stale w path entry = (entry.path ≡ path) × (is_stale w entry ≡ true)

scan-Stale :
    (w : World) (path : Text) (entries : List Entry)
    → Memᴰ path (scan_and_remove_stale_temp_files w entries)
    → (entry : Entry) × Memᴰ entry entries × Stale w path entry
unfolding scan_and_remove_stale_temp_files
scan-Stale w path [] m = elim m [ ]
scan-Stale w path (entry ∷ entries) m = elim (Bool-cases (is_stale w entry)) [
  | inr kept ↦
      let (found, later, is) = scan-Stale w path entries (rw kept at m) in
      (found, Memᴰ.tail later, is)
  | inl stale ↦ here stale (scan-Stale w path entries) (rw stale at m)
]
  where
    here :
        is_stale w entry ≡ true
        → (Memᴰ path (scan_and_remove_stale_temp_files w entries)
            → (found : Entry) × Memᴰ found entries × Stale w path found)
        → Memᴰ path (entry.path ∷ scan_and_remove_stale_temp_files w entries)
        → (found : Entry) × Memᴰ found (entry ∷ entries) × Stale w path found
    here stale among (Memᴰ.head same) = (entry, Memᴰ.head refl, (sym same, stale))
    here stale among (Memᴰ.tail later) =
        let (found, m, is) = among later in (found, Memᴰ.tail m, is)

stale-scan :
    (w : World) (path : Text) (entries : List Entry) (found : Entry)
    → Memᴰ found entries
    → Stale w path found
    → Memᴰ path (scan_and_remove_stale_temp_files w entries)
unfolding scan_and_remove_stale_temp_files
stale-scan w path [] found m is = elim m [ ]
stale-scan w path (entry ∷ entries) found (Memᴰ.head same) is =
    let stale : is_stale w entry ≡ true = rw same at is.1 in
    rw stale (Memᴰ.head (sym is.0 ∙ ap (λ e. e.path) same))
stale-scan w path (entry ∷ entries) found (Memᴰ.tail later) is =
    elim (Bool-cases (is_stale w entry)) [
      | inr kept ↦ rw kept (stale-scan w path entries found later is)
      | inl stale ↦ rw stale (Memᴰ.tail (stale-scan w path entries found later is))
    ]

-- The clean-up removes exactly the files that carry a codec's name, are not this process's own and can
-- be removed.
pub scan_and_remove_iff :
    (w : World) (path : Text) (entries : List Entry)
    → Memᴰ path (scan_and_remove_stale_temp_files w entries)
      ↔ ((entry : Entry) × Memᴰ entry entries × Stale w path entry)
scan_and_remove_iff w path entries =
    (scan-Stale w path entries, λ h. let (found, m, is) = h in stale-scan w path entries found m is)
