-- ===== src/Extensions/Reload.antt =====
-- crates/around-extensions/src/lib.rs: the hot reload in two phases.
use around.Base.{ℕ, ◌==◌, if◌then◌else◌, Option, none, some, List, [], ◌∷◌, ok, err}
use around.Base.Text.{Text}
use around.Base.Dict.{Dict, find, put}
use around.Base.Stateful.{◌>>=◌, ◌>>◌, return, fail, modify}
use around.Extensions.Trust.{new_counter}
use around.Extensions.State.{
  World, Framework, SlotStorage, reg_of, SlotDef, Library, OwnedMeta, load, crashed_call, not_found,
  on_load, on_unload, on_reload,
}
use around.Extensions.Lifecycle.{broadcast}
use around.Extensions.Slots.{push_entry}
use around.Extensions.Load.{Step, created, to_heap_ffi, run_init, slot_entries, register_slots}
use around.Extensions.Unload.{check_dependents, take_meta, take_library, run_deinit, remove_entries}

pub record PendingReload : Type 0 where
  pub lib : Library
  pub meta : OwnedMeta
  pub slot_defs : List SlotDef
  pub entries : List (Text × List ℕ)
  pub depends_on : List Text

-- A slot without entries gets no place in the map.
with_slot : Text → List ℕ → List (Text × List ℕ) → List (Text × List ℕ)
with_slot slot [] entries = entries
with_slot slot (e ∷ es) entries = (slot, e ∷ es) ∷ entries

unfoldable pub poll_slots : Library → List (Text × ℕ) → List (Text × List ℕ)
unfolding with_slot
poll_slots lib [] = []
poll_slots lib ((slot, reg) ∷ slots) = with_slot slot (created lib slot) (poll_slots lib slots)

or_load : {A : Type 0} → Option A → Step A
or_load none = fail load
or_load (some a) = return a

-- The key of the metadata whose box is `ptr`.
unfoldable pub name_of_ptr : ℕ → Dict OwnedMeta → Option Text
name_of_ptr ptr [] = none
name_of_ptr ptr ((name, m) ∷ metas) = if m.ptr == ptr then some name else name_of_ptr ptr metas

unfoldable pub or_missing : Option Text → Step Text
or_missing none = fail (not_found [])
or_missing (some name) = return name

or_unknown : Text → Option OwnedMeta → Step OwnedMeta
or_unknown name none = fail (not_found name)
or_unknown name (some m) = return m

module _ (w : World) where
  unfoldable pub prepare_reload : Text → Step PendingReload
  unfolding or_load
  prepare_reload path = do
    lib ← or_load (w.open_library path)
    read ← or_load lib.around_meta
    meta ← to_heap_ffi read
    let entries = λ (fw : Framework). poll_slots lib (slot_entries meta.meta.name fw.slot_map)
    polled ← λ fw. return (entries fw) fw
    run_init lib.around_init
    return (record {
      lib = lib;
      meta = meta;
      slot_defs = lib.around_slots;
      entries = polled;
      depends_on = meta.meta.depends_on;
    })

  -- Entries for one slot's register: the first whose push panics is an error.
  unfoldable pub push_polled : ℕ → ℕ → List ℕ → Step (Unit {0})
  push_polled reg meta [] fw = (ok tt, fw)
  push_polled reg meta (entry ∷ entries) fw =
      let pushed =
        push_polled reg meta entries
          (push_entry reg (record { entry = entry; ext_meta = meta }) fw) in
      if w.push_panics reg entry then (err crashed_call, fw) else pushed

  -- A slot that is no longer registered is passed over.
  unfoldable pub push_if_there : ℕ → List ℕ → Option SlotStorage → Step (Unit {0})
  push_if_there meta entries none = return tt
  push_if_there meta entries (some storage) = push_polled (reg_of storage) meta entries

  unfoldable pub push_to_slot : ℕ → Text → List ℕ → Step (Unit {0})
  unfolding push_if_there
  push_to_slot meta slot entries fw = push_if_there meta entries (find slot fw.slot_map) fw

  unfoldable pub push_reloaded : ℕ → List (Text × List ℕ) → Step (Unit {0})
  push_reloaded meta [] = return tt
  push_reloaded meta ((slot, entries) ∷ slots) =
      push_to_slot meta slot entries >> push_reloaded meta slots

  -- `commit_reload` past its checks: `meta` is the old extension's metadata.
  unfoldable pub replace_extension : Text → ℕ → PendingReload → Step (Unit {0})
  replace_extension name old_meta p = do
    modify (λ fw. broadcast on_unload old_meta (broadcast on_reload old_meta fw))
    old ← take_meta name
    old_lib ← take_library name
    modify (remove_entries name old.ptr)
    modify (run_deinit name old_lib.around_deinit)
    modify (register_slots w p.lib name p.meta.ptr p.slot_defs)
    push_reloaded p.meta.ptr p.entries
    modify (λ fw. broadcast on_load p.meta.ptr (record fw {
      loaded = put name p.lib fw.loaded;
      loaded_meta = put name p.meta fw.loaded_meta;
      loaded_trust = put name (new_counter 100) fw.loaded_trust;
    }))

  unfoldable pub commit_reload : ℕ → PendingReload → Step (Unit {0})
  unfolding or_missing
  commit_reload old_meta p = do
    name ← λ fw. or_missing (name_of_ptr old_meta fw.loaded_meta) fw
    check_dependents name
    replace_extension name old_meta p

  unfoldable pub reload : Text → Text → Step (Unit {0})
  unfolding or_unknown
  reload name path = do
    old ← λ fw. or_unknown name (find name fw.loaded_meta) fw
    pending ← prepare_reload path
    commit_reload old.ptr pending
