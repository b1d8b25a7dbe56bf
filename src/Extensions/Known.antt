-- ===== src/Extensions/Known.antt =====
-- crates/around-extensions/src/lib.rs: the names that the extensions on disk and in the index need.
use around.Base.{
  ok_inj, ◌≢◌, Bool, true, false, if◌then◌else◌, Option, none, some, List, [], ◌∷◌, Result, ok, err,
  ◌≡◌, refl, sym, subst, some_inj,
}
use around.Base.Text.{Text, text_eq}
use around.Base.Dict.{Dict, find, put, find-put}
use around.Extensions.State.{
  World, Framework, DirEntry, IndexedMeta, FrameworkError, contains, not_found, out_of_fuel,
}
use around.Extensions.Scan.{
  found_at, extension_of, is_shared_lib, meta_of, find_in_entries, named_entry, find_in_paths,
  readable, or_later, fresh_scan, indexed_as,
}
use around.Extensions.Load.{resolve, or_scan, scanned, found_or}

-- `names` holds whatever the extension needs.
abbrev pub Needs : List Text → Text × IndexedMeta → Type 0
Needs names e = (dep : Text) → contains dep e.1.depends_on ≡ true → contains dep names ≡ true

abbrev pub NeedsOf : List Text → Option (Text × IndexedMeta) → Type 0
NeedsOf names o = (e : Text × IndexedMeta) → o ≡ some e → Needs names e

-- `names` holds what any library on disk needs.
abbrev pub OnDisk : World → List Text → Type 0
OnDisk w names =
    (path : Text) (meta : IndexedMeta)
    → meta_of (w.open_library path) ≡ some meta
    → Needs names (path, meta)

abbrev pub Indexed : List Text → Dict (Text × IndexedMeta) → Type 0
Indexed names index = (name : Text) → NeedsOf names (find name index)

module _ (names : List Text) where
  none-Needs : NeedsOf names none
  none-Needs e h = cc

  found_at-Needs :
      (path : Text) (o : Option IndexedMeta)
      → ((meta : IndexedMeta) → o ≡ some meta → Needs names (path, meta))
      → NeedsOf names (found_at path o)
  unfolding found_at
  found_at-Needs path none known e h = cc
  found_at-Needs path (some meta) known e h = subst (Needs names) (some_inj _ _ h) (known meta refl)

  if-Needs :
      (b : Bool) (o p : Option (Text × IndexedMeta))
      → NeedsOf names o
      → NeedsOf names p
      → NeedsOf names (if b then o else p)
  if-Needs true o p ho hp = ho
  if-Needs false o p ho hp = hp

  named_entry-Needs :
      (name : Text) (o later : Option (Text × IndexedMeta))
      → NeedsOf names o
      → NeedsOf names later
      → NeedsOf names (named_entry name o later)
  unfolding named_entry
  named_entry-Needs name none later ho hl = hl
  named_entry-Needs name (some found) later ho hl =
      if-Needs (text_eq found.1.name name) (some found) later ho hl

  or_later-Needs :
      (o later : Option (Text × IndexedMeta))
      → NeedsOf names o
      → NeedsOf names later
      → NeedsOf names (or_later o later)
  unfolding or_later
  or_later-Needs none later ho hl = hl
  or_later-Needs (some found) later ho hl = ho

module _ (w : World) (names : List Text) (disk : OnDisk w names) where
  pub extension_of-Needs : (entry : Option DirEntry) → NeedsOf names (extension_of w entry)
  unfolding extension_of
  extension_of-Needs none = none-Needs names
  extension_of-Needs (some entry) =
      if-Needs names (is_shared_lib entry.extension) _ none
        (found_at-Needs names entry.path _ (λ meta h. disk entry.path meta h)) (none-Needs names)

  find_in_entries-Needs :
      (name : Text) (entries : List (Option DirEntry))
      → NeedsOf names (find_in_entries w name entries)
  unfolding find_in_entries
  find_in_entries-Needs name [] = none-Needs names
  find_in_entries-Needs name (entry ∷ entries) =
      named_entry-Needs names name _ _ (extension_of-Needs entry)
        (find_in_entries-Needs name entries)

  find_in_paths-Needs :
      (name : Text) (paths : List Text) → NeedsOf names (find_in_paths w name paths)
  unfolding find_in_paths
  find_in_paths-Needs name [] = none-Needs names
  find_in_paths-Needs name (path ∷ paths) =
      or_later-Needs names _ _ (find_in_entries-Needs name (readable (w.read_dir path)))
        (find_in_paths-Needs name paths)

-- An index with one more known extension.
pub put-Indexed :
    (names : List Text) (name : Text) (found : Text × IndexedMeta)
    (index : Dict (Text × IndexedMeta))
    → Needs names found
    → Indexed names index
    → Indexed names (put name found index)
put-Indexed names name found index known h at =
    subst (NeedsOf names) (sym (find-put at name found index)) (
      if-Needs names (text_eq name at) (some found) (find at index)
        (λ e same. subst (Needs names) (some_inj _ _ same) known) (h at))

-- What `resolve` does: the index may grow, and what it answers is known.
pub record Resolved (names : List Text) (fw : Framework)
    (answer : Result FrameworkError (Text × IndexedMeta) × Framework) : Type 0 where
  pub same_loaded : answer.1.loaded ≡ fw.loaded
  pub same_metas : answer.1.loaded_meta ≡ fw.loaded_meta
  pub same_claims : answer.1.loading ≡ fw.loading
  pub indexed : Indexed names answer.1.index
  pub known : (e : Text × IndexedMeta) → answer.0 ≡ ok e → Needs names e
  pub ends : answer.0 ≢ err out_of_fuel

module _ (names : List Text) (fw : Framework) (h : Indexed names fw.index) where
  kept-Resolved :
      (answer : Result FrameworkError (Text × IndexedMeta))
      → ((e : Text × IndexedMeta) → answer ≡ ok e → Needs names e)
      → answer ≢ err out_of_fuel
      → Resolved names fw (answer, fw)
  kept-Resolved answer known ends = record {
    same_loaded = refl;
    same_metas = refl;
    same_claims = refl;
    indexed = h;
    known = known;
    ends = ends;
  }

  found_or-Resolved :
      (name : Text) (o : Option (Text × IndexedMeta))
      → NeedsOf names o
      → Resolved names fw (found_or name o fw)
  unfolding found_or
  found_or-Resolved name none known = kept-Resolved (err (not_found name)) (λ e q. cc) (λ q. cc)
  found_or-Resolved name (some e) known =
      kept-Resolved (ok e) (λ d q. subst (Needs names) (ok_inj q) (known e refl)) (λ q. cc)

scanned-Resolved :
    (names : List Text) (name : Text) (fw : Framework) (o : Option (Text × IndexedMeta))
    → Indexed names fw.index
    → NeedsOf names o
    → Resolved names fw (scanned name (indexed_as name o fw))
unfolding scanned indexed_as
scanned-Resolved names name fw none h known =
    kept-Resolved names fw h (err (not_found name)) (λ e q. cc) (λ q. cc)
scanned-Resolved names name fw (some found) h known =
    let grown = put-Indexed names name found fw.index (known found refl) h in
    let fw' : Framework = record fw { index = put name found fw.index } in
    let r = found_or-Resolved names fw' grown name (find name fw'.index) (grown name) in
    record {
      same_loaded = r.same_loaded;
      same_metas = r.same_metas;
      same_claims = r.same_claims;
      indexed = r.indexed;
      known = r.known;
      ends = r.ends;
    }

or_scan-Resolved :
    (w : World) (names : List Text) (name : Text) (fw : Framework) (o : Option (Text × IndexedMeta))
    → OnDisk w names
    → Indexed names fw.index
    → NeedsOf names o
    → Resolved names fw (or_scan w name o fw)
unfolding or_scan fresh_scan
or_scan-Resolved w names name fw none disk h known =
    scanned-Resolved names name fw (find_in_paths w name fw.search_paths) h
      (find_in_paths-Needs w names disk name fw.search_paths)
or_scan-Resolved w names name fw (some e) disk h known =
    kept-Resolved names fw h (ok e) (λ d q. subst (Needs names) (ok_inj q) (known e refl)) (λ q. cc)

pub resolve-Resolved :
    (w : World) (names : List Text) (name : Text) (fw : Framework)
    → OnDisk w names
    → Indexed names fw.index
    → Resolved names fw (resolve w name fw)
unfolding resolve
resolve-Resolved w names name fw disk h =
    or_scan-Resolved w names name fw (find name fw.index) disk h (h name)
