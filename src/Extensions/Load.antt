-- ===== src/Extensions/Load.antt =====
-- crates/around-extensions/src/lib.rs: `Framework::load`.
-- It loads what an extension depends on by calling itself, for which it has fuel here.
use around.Base.{
  ℕ, zero, suc, ◌+◌, ◌&&◌, ◌==◌, leb, Bool, true, false, if◌then◌else◌, Option, none, some, List,
  [], ◌∷◌, ◌++◌, map, Result, ok, err,
}
use around.Base.Int.{ℤ, pos, negsuc}
use around.Base.Text.{Text, text_eq}
use around.Base.Dict.{is_there, Dict, find, put}
use around.Base.Stateful.{◌>>=◌, ◌>>◌, return, fail, demand, modify}
use around.Extensions.Trust.{new_counter}
use around.Extensions.State.{
  World, Framework, SlotStorage, static, owned, SlotDef, RegEntry, Library, IndexedMeta, OwnedMeta,
  Outcome, crashed, returned, FrameworkError, load, init, crashed_call, out_of_fuel, not_found,
  slot_not_registered, api_version_mismatch, on_load, contains, without, current_api_version,
}
use around.Extensions.Lifecycle.{broadcast}
use around.Extensions.Scan.{fresh_scan}
use around.Extensions.Slots.{
  push_entry, attach_register_owned, drain_pending, record_guarded_outcome,
}

-- A step that may fail, over the framework.
abbrev pub Step : Type 0 → Type 0
Step A = Framework → Result FrameworkError A × Framework

-- `to_lowercase().replace("::", "_")` on an ASCII name.
abbrev lower : ℕ → ℕ
lower c = if leb b'A' c && leb c b'Z' then c + 32 else c

unfoldable pub underscored : Text → Text
underscored [] = []
underscored (c ∷ []) = c ∷ []
underscored (c ∷ d ∷ rest) =
    let pair = b'_' ∷ underscored rest in
    let other = c ∷ underscored (d ∷ rest) in if c == b':' && d == b':' then pair else other

unfoldable pub create_symbol : Text → Text
create_symbol slot =
    underscored (map lower slot) ++ b'_' ∷ b'c' ∷ b'r' ∷ b'e' ∷ b'a' ∷ b't' ∷ b'e' ∷ []

-- What a slot's `create` hands out, one index after the other.
entries_or_none : Option (List ℕ) → List ℕ
entries_or_none none = []
entries_or_none (some entries) = entries

unfoldable pub created : Library → Text → List ℕ
unfolding entries_or_none
created lib slot = entries_or_none (lib.create (create_symbol slot))

-- `to_heap_ffi` in a new box.
unfoldable pub to_heap_ffi : IndexedMeta → Step OwnedMeta
to_heap_ffi meta fw =
    (ok (record { ptr = fw.next_ptr; meta = meta }), record fw { next_ptr = suc fw.next_ptr })

unfoldable pub is_zero : ℤ → Bool
is_zero (pos n) = n == 0
is_zero (negsuc n) = false

-- `around_init`, where there is one.
unfoldable pub run_init : Option Outcome → Step (Unit {0})
unfolding is_zero
run_init none = return tt
run_init (some crashed) = fail crashed_call
run_init (some (returned rc)) = demand (is_zero rc) init

-- Every slot that an extension wants is there.
unfoldable pub check_slots : List Text → Step (Unit {0})
check_slots [] fw = (ok tt, fw)
check_slots (slot ∷ slots) fw =
    let rest = check_slots slots fw in
    if is_there (find slot fw.slot_map) then rest else (err (slot_not_registered slot), fw)

-- The slots whose registers an extension of that name adds to, besides its own.
unfoldable pub slot_entries : Text → Dict SlotStorage → List (Text × ℕ)
slot_entries name [] = []
slot_entries name ((slot, static reg) ∷ slots) = (slot, reg) ∷ slot_entries name slots
slot_entries name ((slot, owned reg owner) ∷ slots) =
    if text_eq owner name then slot_entries name slots else (slot, reg) ∷ slot_entries name slots

-- `index.get(name)`, with a fresh scan of the search paths where it is not there.
unfoldable pub found_or : Text → Option (Text × IndexedMeta) → Step (Text × IndexedMeta)
found_or name none = fail (not_found name)
found_or name (some entry) = return entry

unfoldable pub scanned :
    Text → Bool × Framework → Result FrameworkError (Text × IndexedMeta) × Framework
scanned name (false, fw) = (err (not_found name), fw)
scanned name (true, fw) = found_or name (find name fw.index) fw

unfoldable pub opened_library : Option Library → Step Library
opened_library none = fail load
opened_library (some lib) = return lib

-- The extension becomes visible: its library, its metadata, its hooks and its trust.
unfoldable pub install : Text → Library → OwnedMeta → Framework → Framework
install name lib meta fw =
    let visible =
      broadcast on_load meta.ptr (record fw {
        loaded = put name lib fw.loaded;
        loaded_meta = put name meta fw.loaded_meta;
      }) in
    record visible { loaded_trust = put name (new_counter 100) visible.loaded_trust }

-- `for dep in depends_on { self.load(dep)? }`
unfoldable pub load_deps : (Text → Step Library) → List Text → Step (Unit {0})
load_deps load_one [] = return tt
load_deps load_one (dep ∷ deps) = do lib ← load_one dep; load_deps load_one deps

-- `LoadingGuard::drop`
unfoldable pub unclaim :
    Text → Result FrameworkError Library × Framework → Result FrameworkError Library × Framework
unclaim name (result, fw) = (result, record fw { loading = without name fw.loading })

module _ (w : World) where
  -- An entry for a slot of the extension's own: one whose push panics is buffered.
  unfoldable pub push_or_wait : Text → ℕ → RegEntry → Framework → Framework
  push_or_wait slot reg e fw =
      if w.push_panics reg e.entry
      then (record fw {
        pending =
            fw.pending ++ record { slot_name = slot; entry = e.entry; ext_meta = e.ext_meta } ∷ [];
      })
      else push_entry reg e fw

  unfoldable pub push_own : Text → ℕ → ℕ → List ℕ → Framework → Framework
  push_own slot reg meta [] fw = fw
  push_own slot reg meta (entry ∷ entries) fw =
      push_own slot reg meta entries
        (push_or_wait slot reg (record { entry = entry; ext_meta = meta }) fw)

  -- The loop over `AROUND_SLOTS`.
  unfoldable pub register_slots : Library → Text → ℕ → List SlotDef → Framework → Framework
  register_slots lib owner meta [] fw = fw
  register_slots lib owner meta (d ∷ ds) fw = register_slots lib owner meta ds (
      drain_pending w d.slot_name d.reg_instance (
        push_own d.slot_name d.reg_instance meta (created lib d.slot_name)
          (attach_register_owned w d.slot_name d.reg_instance owner fw)))

  -- Entries for another slot: the first whose push panics is an error.
  unfoldable pub push_slot : Text → ℕ → ℕ → List ℕ → Step (Unit {0})
  push_slot slot reg meta [] fw = (ok tt, fw)
  push_slot slot reg meta (entry ∷ entries) fw =
      let pushed = push_slot slot reg meta entries (
        record_guarded_outcome slot true
          (push_entry reg (record { entry = entry; ext_meta = meta }) fw)) in
      if w.push_panics reg entry
      then (err crashed_call, record_guarded_outcome slot false fw)
      else pushed

  unfoldable pub push_slots : Library → ℕ → List (Text × ℕ) → Step (Unit {0})
  push_slots lib meta [] = return tt
  push_slots lib meta ((slot, reg) ∷ slots) =
      push_slot slot reg meta (created lib slot) >> push_slots lib meta slots

  unfoldable pub or_scan : Text → Option (Text × IndexedMeta) → Step (Text × IndexedMeta)
  or_scan name none fw = scanned name (fresh_scan w name fw)
  or_scan name (some entry) fw = (ok entry, fw)

  unfoldable pub resolve : Text → Step (Text × IndexedMeta)
  unfolding or_scan scanned found_or
  resolve name fw = or_scan name (find name fw.index) fw

  -- From `dlopen` on.
  unfoldable pub load_library : Text → Text × IndexedMeta → Step Library
  unfolding opened_library
  load_library name entry = do
    lib ← opened_library (w.open_library entry.0)
    meta ← to_heap_ffi entry.1
    run_init lib.around_init
    modify (register_slots lib name meta.ptr lib.around_slots)
    λ fw. push_slots lib meta.ptr (slot_entries name fw.slot_map) fw
    modify (install name lib meta)
    return lib

  -- What `load` does while it holds the claim on the name.
  unfoldable pub load_claimed : (Text → Step Library) → Text → Step Library
  load_claimed load_one name = do
    entry ← resolve name
    demand (entry.1.api_version == current_api_version)
        (api_version_mismatch current_api_version entry.1.api_version)
    check_slots entry.1.depends_on_slots
    load_deps load_one entry.1.depends_on
    load_library name entry

  unfoldable pub load_step : (Text → Step Library) → Text → Option Library → Step Library
  load_step load_one name (some lib) fw = (ok lib, fw)
  load_step load_one name none fw =
      if contains name fw.loading
      then (err load, fw)
      else unclaim name (load_claimed load_one name (record fw { loading = name ∷ fw.loading }))

  unfoldable pub load_extension : ℕ → Text → Step Library
  load_extension zero name fw = (err out_of_fuel, fw)
  load_extension (suc fuel) name fw = load_step (load_extension fuel) name (find name fw.loaded) fw
