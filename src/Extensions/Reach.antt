-- ===== src/Extensions/Reach.antt =====
-- crates/around-extensions/src/lib.rs: the states of a framework that is scanned, given slots, loaded
-- and unloaded, one call after the other.
use around.Base.{
  ℕ, ◌<◌, true, Option, none, some, List, [], ◌∷◌, Result, err, ◌≡◌, refl, sym, ap, subst, ◌∙◌, inl,
  inr, Bool-cases, Option-cases,
}
use around.Base.Text.{Text, text_eq, text_eq_iff}
use around.Base.Dict.{Dict, find, delete, find-delete, is_there}
use around.Extensions.State.{
  World, Framework, DirEntry, Library, IndexedMeta, OwnedMeta, FrameworkError, contains,
  new_framework, not_found, dependents_remain,
}
use around.Extensions.Scan.{
  scan_readable, scan, scan_paths, scan_entries, index_extension, keep_first, extension_of,
}
use around.Extensions.Slots.{attach_register}
use around.Extensions.Load.{load_extension}
use around.Extensions.Unload.{
  unload, dependent_of, check_dependents, no_dependents, take_meta, or_not_found,
}
use around.Extensions.Consistent.{IsConsistent}
use around.Extensions.Known.{Needs, NeedsOf, OnDisk, Indexed, put-Indexed, extension_of-Needs}
use around.Extensions.Keeps.{core, Core, drain_pending-core}
use around.Extensions.Claims.{unclaimed}
use around.Extensions.Loading.{Ready, Done}
use around.Extensions.LoadEnds.{load_extension-Done}
use around.Extensions.Unloads.{unload_free, unload-Unloaded, find-others}

module _ (w : World) (names : List Text) (disk : OnDisk w names) where
  keep_first-Indexed :
      (found : Text × IndexedMeta) (o : Option (Text × IndexedMeta))
      (index : Dict (Text × IndexedMeta))
      → Needs names found
      → Indexed names index
      → Indexed names (keep_first found o index)
  unfolding keep_first
  keep_first-Indexed found (some old) index known h = h
  keep_first-Indexed found none index known h = put-Indexed names found.1.name found index known h

  index_extension-Indexed :
      (o : Option (Text × IndexedMeta)) (index : Dict (Text × IndexedMeta))
      → NeedsOf names o
      → Indexed names index
      → Indexed names (index_extension o index)
  unfolding index_extension
  index_extension-Indexed none index known h = h
  index_extension-Indexed (some found) index known h =
      keep_first-Indexed found (find found.1.name index) index (known found refl) h

  scan_entries-Indexed :
      (entries : List (Option DirEntry)) (index : Dict (Text × IndexedMeta))
      → Indexed names index
      → Indexed names (scan_entries w entries index)
  unfolding scan_entries
  scan_entries-Indexed [] index h = h
  scan_entries-Indexed (entry ∷ entries) index h = scan_entries-Indexed entries _ (
      index_extension-Indexed (extension_of w entry) index (extension_of-Needs w names disk entry)
        h)

  scan_readable-Indexed :
      (later : Dict (Text × IndexedMeta)
        → Result FrameworkError (Unit {0}) × Dict (Text × IndexedMeta))
      (o : Option (List (Option DirEntry))) (index : Dict (Text × IndexedMeta))
      → ((index' : Dict (Text × IndexedMeta))
          → Indexed names index'
          → Indexed names (later index').1)
      → Indexed names index
      → Indexed names (scan_readable w later o index).1
  unfolding scan_readable
  scan_readable-Indexed later none index go h = h
  scan_readable-Indexed later (some entries) index go h =
      go _ (scan_entries-Indexed entries index h)

  scan_paths-Indexed :
      (paths : List Text) (index : Dict (Text × IndexedMeta))
      → Indexed names index
      → Indexed names (scan_paths w paths index).1
  unfolding scan_paths
  scan_paths-Indexed [] index h = h
  scan_paths-Indexed (path ∷ paths) index h =
      scan_readable-Indexed (scan_paths w paths) (w.read_dir path) index
        (λ index' h'. scan_paths-Indexed paths index' h') h

  -- The calls that users of the framework make.
  pub data Call : Framework → Framework → Type 0 where
    scanned : (paths : List Text) (fw : Framework) → Call fw (scan w paths fw).1
    attached : (slot : Text) (reg : ℕ) (fw : Framework) → Call fw (attach_register w slot reg fw)
    loads :
        (fuel : ℕ) (name : Text) (fw : Framework)
        → contains name names ≡ true
        → unclaimed names fw.loading < fuel
        → Call fw (load_extension w fuel name fw).1
    unloads : (name : Text) (fw : Framework) → Call fw (unload name fw).1

  pub data Reachable : Framework → Type 0 where
    at_start : Reachable new_framework
    next : {fw fw' : Framework} → Reachable fw → Call fw fw' → Reachable fw'

  core-Ready : (fw fw' : Framework) → core fw' ≡ core fw → Ready names fw → Ready names fw'
  unfolding core
  core-Ready fw fw' same h = record {
    consistent = subst (λ (c : Core). IsConsistent c.0 c.1) (sym same) h.consistent;
    indexed = subst (λ (c : Core). Indexed names c.3) (sym same) h.indexed;
  }

  attach-Ready :
      (slot : Text) (reg : ℕ) (fw : Framework)
      → Ready names fw
      → Ready names (attach_register w slot reg fw)
  unfolding attach_register
  attach-Ready slot reg fw h =
      core-Ready fw _ (drain_pending-core w slot reg _ ∙ unfold core in refl) h

-- Metadata that is not there is taken away.
delete_none-IsConsistent :
    (name : Text) (loaded : Dict Library) (metas : Dict OwnedMeta)
    → find name metas ≡ none
    → IsConsistent loaded metas
    → IsConsistent loaded (delete name metas)
delete_none-IsConsistent name loaded metas missing h = record {
  same_names = λ at. h.same_names at ∙ ap is_there (sym (same at));
  closed = λ at dep m found needs. h.closed at dep m (sym (same at) ∙ found) needs;
}
  where
    same : (at : Text) → find at (delete name metas) ≡ find at metas
    same at = elim (Bool-cases (text_eq name at)) [
      | inr other ↦ find-others name at metas other
      | inl here ↦
          find-delete at name metas
          ∙ rw here (sym (subst (λ n. find n metas ≡ none) ((text_eq_iff name at).0 here) missing))
    ]

module _ (names : List Text) (name : Text) (fw : Framework) (h : Ready names fw) where
  unload_refused :
      (dependent : Text)
      → dependent_of name fw.loaded_meta ≡ some dependent
      → unload name fw ≡ (err (dependents_remain dependent), fw)
  unfolding unload check_dependents no_dependents
  unload_refused dependent needed = rw needed refl

  unload_missing :
      dependent_of name fw.loaded_meta ≡ none
      → find name fw.loaded_meta ≡ none
      → unload name fw
        ≡ (err (not_found name), record fw { loaded_meta = delete name fw.loaded_meta })
  unfolding take_meta or_not_found
  unload_missing free missing = unload_free name fw free ∙ rw missing refl

  -- Whatever it answers, `unload` leaves the framework as consistent as it was.
  pub unload-Ready : Ready names (unload name fw).1
  unload-Ready = elim (Option-cases (dependent_of name fw.loaded_meta)) [
    | inr (d, needed) ↦
        subst (λ (a : Result FrameworkError (Unit {0}) × Framework). Ready names a.1)
          (sym (unload_refused d needed)) h
    | inl free ↦ elim (Option-cases (find name fw.loaded_meta)) [
      | inl missing ↦
          subst (λ (a : Result FrameworkError (Unit {0}) × Framework). Ready names a.1)
            (sym (unload_missing free missing))
            (record {
              consistent =
                  delete_none-IsConsistent name fw.loaded fw.loaded_meta missing h.consistent;
              indexed = h.indexed;
            })
      | inr (m, there) ↦
          let u = unload-Unloaded name fw m h.consistent there free in
          record {
            consistent = u.consistent;
            indexed = subst (Indexed names) (sym u.same_index) h.indexed;
          }
    ]
  ]

module _ (w : World) (names : List Text) (disk : OnDisk w names) where
  scan-Ready :
      (paths : List Text) (fw : Framework) → Ready names fw → Ready names (scan w paths fw).1
  unfolding scan
  scan-Ready paths fw h = record {
    consistent = h.consistent;
    indexed = scan_paths-Indexed w names disk paths fw.index h.indexed;
  }

  new-Ready : Ready names new_framework
  unfolding new_framework find is_there
  new-Ready = record {
    consistent = record { same_names = λ name. refl; closed = λ name dep m found needs. cc };
    indexed = λ name e found. cc;
  }

  Call-Ready : {fw fw' : Framework} → Call w names disk fw fw' → Ready names fw → Ready names fw'
  Call-Ready (scanned paths fw) h = scan-Ready paths fw h
  Call-Ready (attached slot reg fw) h = attach-Ready w names disk slot reg fw h
  Call-Ready (loads fuel name fw known enough) h =
      Done.ready (load_extension-Done w names disk fuel name fw h known enough)
  Call-Ready (unloads name fw) h = unload-Ready names name fw h

  -- In every state that scans, new slots, loads and unloads lead to, each loaded extension has its
  -- metadata, and what it depends on is loaded.
  pub Reachable-IsConsistent : {fw : Framework} → Reachable w names disk fw → Ready names fw
  Reachable-IsConsistent at_start = new-Ready
  Reachable-IsConsistent (next before call) = Call-Ready call (Reachable-IsConsistent before)
