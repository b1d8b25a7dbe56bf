-- ===== src/Extensions/Unloads.antt =====
-- crates/around-extensions/src/lib.rs: how `unload` ends.
use around.Base.Stateful.{go_on, modify, ◌>>=◌, ◌>>◌}
use around.Base.{ℕ, true, false, Option, none, some, Result, ok, ◌≡◌, ◌≢◌, refl, sym, subst, ◌∙◌}
use around.Base.Text.{Text, text_eq}
use around.Base.Dict.{Dict, find, delete, retain, find-delete, is_there, text_eq_self}
use around.Extensions.State.{
  Outcome, Framework, Library, OwnedMeta, SlotStorage, owned, reg_of, FrameworkError, on_unload,
}
use around.Extensions.Lifecycle.{broadcast}
use around.Extensions.Slots.{remove_owned_slots, not_owned_by, remove_from_all}
use around.Extensions.Unload.{
  unload, dependent_of, no_dependents, check_dependents, take_meta, take_library, or_not_found,
  remove_entries, run_deinit, drop_trust,
}
use around.Extensions.Consistent.{IsConsistent, delete-IsConsistent}
use around.Extensions.Unloading.{
  dependent_of-none, retain-owned, remove_from_all-registers, Without, remove_from_all-Without,
}

-- What `unload` leaves where it succeeds.
abbrev unloaded : Text → OwnedMeta → Library → Framework → Framework
unloaded name m lib fw = run_deinit name lib.around_deinit (
    broadcast on_unload m.ptr (record fw {
      loaded_meta = delete name fw.loaded_meta;
      registers =
          (remove_from_all fw.slot_map m.ptr
            (record fw { loaded_meta = delete name fw.loaded_meta })).registers;
      slot_map = retain (not_owned_by name) fw.slot_map;
      loaded = delete name fw.loaded;
      loaded_trust = delete name fw.loaded_trust;
    }))

module _ (name : Text) (fw : Framework) where
  pub unload_free :
      dependent_of name fw.loaded_meta ≡ none
      → unload name fw
        ≡ go_on
            (λ meta.
              modify (remove_entries name meta.ptr)
              >> (take_library name >>= λ lib. modify (λ d.
                  run_deinit name lib.around_deinit
                    (broadcast on_unload meta.ptr (drop_trust name d)))))
            (take_meta name fw)
  unfolding unload check_dependents no_dependents
  unload_free free = rw free refl

  unload_ok :
      (m : OwnedMeta) (lib : Library)
      → dependent_of name fw.loaded_meta ≡ none
      → find name fw.loaded_meta ≡ some m
      → find name fw.loaded ≡ some lib
      → unload name fw ≡ (ok tt, unloaded name m lib fw)
  unfolding take_meta or_not_found take_library remove_entries remove_owned_slots drop_trust
  unload_ok m lib free meta_there lib_there =
      unload_free free
      ∙ rw meta_there (
          rw
            (remove_from_all-registers fw.slot_map m.ptr
              (record fw { loaded_meta = delete name fw.loaded_meta }))
            (rw lib_there refl))

run_deinit-events :
    (name : Text) (o : Option Outcome) (fw : Framework)
    → run_deinit name o fw ≡ record fw { events = (run_deinit name o fw).events }
unfolding run_deinit
run_deinit-events name none fw = refl
run_deinit-events name (some outcome) fw = refl

-- How an `unload` of a loaded extension ends.
pub record Unloaded (name : Text) (m : OwnedMeta) (fw : Framework)
    (answer : Result FrameworkError (Unit {0}) × Framework) : Type 0 where
  pub succeeds : answer.0 ≡ ok tt
  pub consistent : IsConsistent answer.1.loaded answer.1.loaded_meta
  pub gone : find name answer.1.loaded ≡ none
  pub same_index : answer.1.index ≡ fw.index
  pub same_claims : answer.1.loading ≡ fw.loading
  pub same_pending : answer.1.pending ≡ fw.pending
  pub others :
      (other : Text)
      → text_eq name other ≡ false
      → find other answer.1.loaded ≡ find other fw.loaded
  pub no_slots : (slot : Text) (reg : ℕ) → find slot answer.1.slot_map ≢ some (owned reg name)
  pub no_entries :
      (slot : Text) (storage : SlotStorage)
      → find slot fw.slot_map ≡ some storage
      → Without m.ptr (answer.1.registers (reg_of storage))

there-some : {A : Type 0} (o : Option A) → is_there o ≡ true → (a : A) × (o ≡ some a)
unfolding is_there
there-some none h = cc
there-some (some a) h = (a, refl)

find-deleted : {V : Type 0} (name : Text) (d : Dict V) → find name (delete name d) ≡ none
find-deleted name d = rw (find-delete name name d) (rw (text_eq_self name) refl)

pub find-others :
    {V : Type 0} (name other : Text) (d : Dict V)
    → text_eq name other ≡ false
    → find other (delete name d) ≡ find other d
find-others name other d ne = rw (find-delete other name d) (rw ne refl)

module _ (name : Text) (fw : Framework) (m : OwnedMeta)
    (h : IsConsistent fw.loaded fw.loaded_meta) where
  unloaded-Unloaded :
      (lib : Library)
      → dependent_of name fw.loaded_meta ≡ none
      → Unloaded name m fw (ok tt, unloaded name m lib fw)
  unfolding broadcast
  unloaded-Unloaded lib free = rw (run_deinit-events name lib.around_deinit _) (record {
    succeeds = refl;
    consistent =
        delete-IsConsistent name lib m fw.loaded fw.loaded_meta h
          (λ other o ne found. dependent_of-none name fw.loaded_meta other o free ne found);
    gone = find-deleted name fw.loaded;
    same_index = refl;
    same_claims = refl;
    same_pending = refl;
    others = λ other ne. find-others name other fw.loaded ne;
    no_slots = λ slot reg. retain-owned name slot reg fw.slot_map;
    no_entries = λ slot storage there.
        remove_from_all-Without fw.slot_map m.ptr
          (record fw { loaded_meta = delete name fw.loaded_meta }) slot storage there;
  })

  -- In a consistent framework `unload` of a loaded extension that no other depends on succeeds. The
  -- extension is gone, the others stay, and what is left is consistent; no slot of the extension's own
  -- stays, and no register of a slot holds an entry of it. Buffered entries stay, also its own.
  pub unload-Unloaded :
      find name fw.loaded_meta ≡ some m
      → dependent_of name fw.loaded_meta ≡ none
      → Unloaded name m fw (unload name fw)
  unload-Unloaded meta_there free =
      let both : is_there (find name fw.loaded) ≡ true =
        h.same_names name ∙ unfold is_there in (rw meta_there refl) in
      let lib = there-some (find name fw.loaded) both in
      subst (Unloaded name m fw) (sym (unload_ok name fw m lib.0 free meta_there lib.1))
        (unloaded-Unloaded lib.0 free)
