-- ===== src/Extensions/Unload.antt =====
-- crates/around-extensions/src/lib.rs: `Framework::unload` and what the framework answers.
use around.Base.{
  ℕ, Bool, ◌&&◌, not, if◌then◌else◌, Option, none, some, List, [], ◌∷◌, ◌++◌, map, length,
}
use around.Base.Text.{Text, text_eq}
use around.Base.Dict.{is_there, Dict, find, delete}
use around.Base.Stateful.{◌>>=◌, ◌>>◌, return, fail, modify}
use around.Extensions.State.{
  Framework, Library, OwnedMeta, not_found, dependents_remain, on_unload, deinit_called, Outcome,
  contains,
}
use around.Extensions.Lifecycle.{broadcast}
use around.Extensions.Load.{Step}
use around.Extensions.Slots.{remove_from_all, remove_owned_slots}

-- The first other extension in the map that depends on `name`.
unfoldable pub dependent_of : Text → Dict OwnedMeta → Option Text
dependent_of name [] = none
dependent_of name ((other, m) ∷ metas) =
    let later = dependent_of name metas in
    if not (text_eq other name) && contains name m.meta.depends_on then some other else later

-- The error where an extension depends on this one.
unfoldable pub no_dependents : Text → Option Text → Step (Unit {0})
no_dependents name none = return tt
no_dependents name (some dependent) = fail (dependents_remain dependent)

unfoldable pub or_not_found : {A : Type 0} → Text → Option A → Step A
or_not_found name none = fail (not_found name)
or_not_found name (some a) = return a

-- `loaded_meta.remove(name)` and `loaded.remove(name)`, which keep the map where the name is missing.
unfoldable pub take_meta : Text → Step OwnedMeta
unfolding or_not_found
take_meta name fw =
    or_not_found name (find name fw.loaded_meta)
      (record fw { loaded_meta = delete name fw.loaded_meta })

unfoldable pub take_library : Text → Step Library
unfolding or_not_found
take_library name fw =
    or_not_found name (find name fw.loaded) (record fw { loaded = delete name fw.loaded })

-- `around_deinit`, whose panic is only logged.
unfoldable pub run_deinit : Text → Option Outcome → Framework → Framework
run_deinit name none fw = fw
run_deinit name (some outcome) fw = record fw { events = fw.events ++ deinit_called name ∷ [] }

-- The extension's entries and its own slots go.
unfoldable pub remove_entries : Text → ℕ → Framework → Framework
remove_entries name meta fw = remove_owned_slots name (remove_from_all fw.slot_map meta fw)

unfoldable pub drop_trust : Text → Framework → Framework
drop_trust name fw = record fw { loaded_trust = delete name fw.loaded_trust }

-- The check that no other extension needs this one.
unfoldable pub check_dependents : Text → Step (Unit {0})
check_dependents name fw = no_dependents name (dependent_of name fw.loaded_meta) fw

unfoldable pub unload : Text → Step (Unit {0})
unload name = do
  check_dependents name
  meta ← take_meta name
  modify (remove_entries name meta.ptr)
  lib ← take_library name
  modify
      (λ fw. run_deinit name lib.around_deinit (broadcast on_unload meta.ptr (drop_trust name fw)))

unfoldable pub is_loaded : Text → Framework → Bool
unfolding is_there
is_loaded name fw = is_there (find name fw.loaded)

unfoldable pub index_len : Framework → ℕ
index_len fw = length fw.index

unfoldable pub loaded_len : Framework → ℕ
loaded_len fw = length fw.loaded

unfoldable pub index_entries : Framework → List (Text × Text)
index_entries fw = map (λ e. (e.0, e.1.0)) fw.index
