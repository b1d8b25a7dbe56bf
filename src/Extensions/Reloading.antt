-- ===== src/Extensions/Reloading.antt =====
-- crates/around-extensions/src/lib.rs: what `commit_reload` leaves loaded.
use around.Base.Stateful.{go_on}
use around.Base.{
  ℕ, Option, none, some, List, [], ◌∷◌, Result, ok, err, ◌≡◌, refl, ap, ◌∙◌, inl, inr, Bool-cases,
}
use around.Base.Text.{Text}
use around.Base.Dict.{find, put, delete}
use around.Extensions.State.{
  World, Framework, Outcome, SlotStorage, FrameworkError, on_load, on_unload, on_reload,
}
use around.Extensions.Lifecycle.{broadcast}
use around.Extensions.Trust.{new_counter}
use around.Extensions.Slots.{remove_owned_slots, push_entry}
use around.Extensions.Load.{register_slots}
use around.Extensions.Unload.{take_meta, take_library, or_not_found, remove_entries, run_deinit}
use around.Extensions.Reload.{
  push_to_slot, push_if_there, PendingReload, push_polled, push_reloaded, replace_extension,
}
use around.Extensions.Keeps.{core, Core, register_slots-core}
use around.Extensions.Unloading.{remove_from_all-registers}

remove_entries-core :
    (name : Text) (meta : ℕ) (fw : Framework) → core (remove_entries name meta fw) ≡ core fw
unfolding remove_entries remove_owned_slots core
remove_entries-core name meta fw = rw (remove_from_all-registers fw.slot_map meta fw) refl

run_deinit-core :
    (name : Text) (o : Option Outcome) (fw : Framework) → core (run_deinit name o fw) ≡ core fw
unfolding run_deinit core
run_deinit-core name none fw = refl
run_deinit-core name (some outcome) fw = refl

push_polled-core :
    (w : World) (reg meta : ℕ) (entries : List ℕ) (fw : Framework)
    → core (push_polled w reg meta entries fw).1 ≡ core fw
unfolding push_polled core push_entry
push_polled-core w reg meta [] fw = refl
push_polled-core w reg meta (entry ∷ entries) fw = elim (Bool-cases (w.push_panics reg entry)) [
  | inl panics ↦ rw panics refl
  | inr fine ↦ rw fine (push_polled-core w reg meta entries _)
]

push_if_there-core :
    (w : World) (meta : ℕ) (entries : List ℕ) (o : Option SlotStorage) (fw : Framework)
    → core (push_if_there w meta entries o fw).1 ≡ core fw
unfolding push_if_there
push_if_there-core w meta entries none fw = refl
push_if_there-core w meta entries (some storage) fw = push_polled-core w _ meta entries fw

-- Two steps that keep the core.
go_on-core :
    {A B : Type 0} (f : A → Framework → Result FrameworkError B × Framework)
    (answer : Result FrameworkError A × Framework) (fw : Framework)
    → core answer.1 ≡ core fw
    → ((a : A) (d : Framework) → core (f a d).1 ≡ core d)
    → core (go_on f answer).1 ≡ core fw
go_on-core f (ok a, d) fw same rest = rest a d ∙ same
go_on-core f (err e, d) fw same rest = same

push_reloaded-core :
    (w : World) (meta : ℕ) (slots : List (Text × List ℕ)) (fw : Framework)
    → core (push_reloaded w meta slots fw).1 ≡ core fw
unfolding push_reloaded
push_reloaded-core w meta [] fw = refl
push_reloaded-core w meta ((slot, entries) ∷ slots) fw =
    go_on-core _ (push_to_slot w meta slot entries fw) fw
      (unfold push_to_slot in (push_if_there-core w meta entries (find slot fw.slot_map) fw))
      (λ done d. push_reloaded-core w meta slots d)

-- `Q` holds of the framework where a step succeeds.
abbrev pub Succeeds :
    {A : Type 0} → (Framework → Type 0) → Result FrameworkError A × Framework → Type 0
Succeeds {A} Q answer = (a : A) → answer.0 ≡ ok a → Q answer.1

pub go_on-Succeeds :
    {A B : Type 0} (Q : Framework → Type 0)
    (f : A → Framework → Result FrameworkError B × Framework)
    (answer : Result FrameworkError A × Framework)
    → ((a : A) → answer.0 ≡ ok a → Succeeds Q (f a answer.1))
    → Succeeds Q (go_on f answer)
go_on-Succeeds Q f (ok a, d) h = h a refl
go_on-Succeeds Q f (err x, d) h = λ b q. cc

or_not_found-state :
    {A : Type 0} (name : Text) (o : Option A) (fw : Framework) → (or_not_found name o fw).1 ≡ fw
unfolding or_not_found
or_not_found-state name none fw = refl
or_not_found-state name (some a) fw = refl

-- The extension is out.
abbrev pub taken : Text → Framework → Core
taken name fw = (delete name fw.loaded, delete name fw.loaded_meta, fw.loading, fw.index)

-- The new version is in.
abbrev pub put_new : Text → PendingReload → Core → Core
put_new name p c = (put name p.lib c.0, put name p.meta c.1, c.2, c.3)

module _ (w : World) (name : Text) (p : PendingReload) (fw : Framework) where
  -- The library and the metadata are out.
  both_taken :
      (old : ℕ)
      → core
          (take_library name
            (take_meta name (broadcast on_unload old (broadcast on_reload old fw))).1).1
        ≡ taken name fw
  unfolding take_library take_meta broadcast core
  both_taken old =
      let start = broadcast on_unload old (broadcast on_reload old fw) in
      let without_meta : Framework = record start { loaded_meta = delete name start.loaded_meta } in
      let e1 : (take_meta name start).1 ≡ without_meta =
        or_not_found-state name (find name start.loaded_meta) without_meta in
      let d1 = (take_meta name start).1 in
      let e2 : (take_library name d1).1 ≡ record d1 { loaded = delete name d1.loaded } =
        or_not_found-state name (find name d1.loaded)
          (record d1 { loaded = delete name d1.loaded }) in
      ap core e2 ∙ ap (λ (d : Framework). core (record d { loaded = delete name d.loaded })) e1

  install_new :
      (d : Framework)
      → core d ≡ taken name fw
      → core (
          broadcast on_load p.meta.ptr (record d {
            loaded = put name p.lib d.loaded;
            loaded_meta = put name p.meta d.loaded_meta;
            loaded_trust = put name (new_counter 100) d.loaded_trust;
          }))
        ≡ put_new name p (taken name fw)
  unfolding broadcast core
  install_new d same = ap (put_new name p) same

  pub replace_extension-core :
      (old : ℕ)
      → Succeeds (λ d. core d ≡ put_new name p (taken name fw)) (replace_extension w name old p fw)
  unfolding replace_extension
  replace_extension-core old =
      let Q : Framework → Type 0 = λ d. core d ≡ put_new name p (taken name fw) in
      let start = broadcast on_unload old (broadcast on_reload old fw) in
      go_on-Succeeds Q _ (take_meta name start) (λ m q1.
        go_on-Succeeds Q _ (take_library name (take_meta name start).1) (λ lib q2.
          let d2 = (take_library name (take_meta name start).1).1 in
          let d3 = remove_entries name m.ptr d2 in
          let d4 = run_deinit name lib.around_deinit d3 in
          let d5 = register_slots w p.lib name p.meta.ptr p.slot_defs d4 in
          let same : core (push_reloaded w p.meta.ptr p.entries d5).1 ≡ taken name fw =
            push_reloaded-core w p.meta.ptr p.entries d5
            ∙ register_slots-core w p.lib name p.meta.ptr p.slot_defs d4
            ∙ run_deinit-core name lib.around_deinit d3
            ∙ remove_entries-core name m.ptr d2
            ∙ both_taken old in
          go_on-Succeeds Q _ (push_reloaded w p.meta.ptr p.entries d5)
            (λ t q3 t' q4. install_new _ same)))
