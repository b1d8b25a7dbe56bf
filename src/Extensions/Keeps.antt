-- ===== src/Extensions/Keeps.antt =====
-- crates/around-extensions/src/lib.rs: steps that leave the loaded extensions and the claims alone.
use around.Base.{
  ◌≢◌, ℕ, ◌++◌, Bool, true, false, Option, none, some, List, [], ◌∷◌, Result, ok, err, ◌≡◌, refl,
  ◌∙◌, inl, inr, Bool-cases,
}
use around.Base.Text.{Text, text_eq}
use around.Base.Dict.{is_there, Dict, find}
use around.Base.Stateful.{demand, go_on}
use around.Extensions.State.{
  slot_not_registered, out_of_fuel, crashed_call, World, Framework, Library, IndexedMeta, OwnedMeta,
  PendingEntry, RegEntry, SlotDef, FrameworkError, Outcome, crashed, returned, init,
}
use around.Extensions.Slots.{
  drain, drain_pending, push_entry, attach_register_owned, record_guarded_outcome,
}
use around.Extensions.Load.{
  Step, check_slots, run_init, is_zero, push_or_wait, push_own, register_slots, created, push_slot,
  push_slots,
}

-- What is loaded, what is being loaded and what is indexed.
abbrev pub Core : Type 0
Core = Dict Library × Dict OwnedMeta × List Text × Dict (Text × IndexedMeta)

unfoldable pub core : Framework → Core
core fw = (fw.loaded, fw.loaded_meta, fw.loading, fw.index)

module _ (w : World) where
  drain-core :
      (slot : Text) (reg : ℕ) (pes remaining : List PendingEntry) (fw : Framework)
      → core (drain w slot reg pes remaining fw) ≡ core fw
  unfolding drain core push_entry
  drain-core slot reg [] remaining fw = refl
  drain-core slot reg (pe ∷ pes) remaining fw = elim (Bool-cases (text_eq pe.slot_name slot)) [
    | inr other ↦ rw other (drain-core slot reg pes (remaining ++ pe ∷ []) fw)
    | inl same ↦ elim (Bool-cases (w.push_panics reg pe.entry)) [
      | inl panics ↦ rw (same, panics) (drain-core slot reg pes (remaining ++ pe ∷ []) fw)
      | inr fine ↦ rw (same, fine) (drain-core slot reg pes remaining _)
    ]
  ]

  pub drain_pending-core :
      (slot : Text) (reg : ℕ) (fw : Framework) → core (drain_pending w slot reg fw) ≡ core fw
  unfolding drain_pending
  drain_pending-core slot reg fw = drain-core slot reg fw.pending [] fw

  attach-core :
      (slot : Text) (reg : ℕ) (owner : Text) (fw : Framework)
      → core (attach_register_owned w slot reg owner fw) ≡ core fw
  unfolding attach_register_owned core
  attach-core slot reg owner fw = drain_pending-core slot reg _

  push_or_wait-core :
      (slot : Text) (reg : ℕ) (e : RegEntry) (fw : Framework)
      → core (push_or_wait w slot reg e fw) ≡ core fw
  unfolding push_or_wait core push_entry
  push_or_wait-core slot reg e fw = elim (Bool-cases (w.push_panics reg e.entry)) [
    | inl panics ↦ rw panics refl
    | inr fine ↦ rw fine refl
  ]

  push_own-core :
      (slot : Text) (reg meta : ℕ) (entries : List ℕ) (fw : Framework)
      → core (push_own w slot reg meta entries fw) ≡ core fw
  unfolding push_own
  push_own-core slot reg meta [] fw = refl
  push_own-core slot reg meta (entry ∷ entries) fw =
      push_own-core slot reg meta entries _ ∙ push_or_wait-core slot reg _ fw

  pub register_slots-core :
      (lib : Library) (owner : Text) (meta : ℕ) (ds : List SlotDef) (fw : Framework)
      → core (register_slots w lib owner meta ds fw) ≡ core fw
  unfolding register_slots
  register_slots-core lib owner meta [] fw = refl
  register_slots-core lib owner meta (d ∷ ds) fw =
      register_slots-core lib owner meta ds _
      ∙ drain_pending-core d.slot_name d.reg_instance _
      ∙ push_own-core d.slot_name d.reg_instance meta (created lib d.slot_name) _
      ∙ attach-core d.slot_name d.reg_instance owner fw

-- A step that keeps the core, and does not run out of fuel.
pub record Quiet {A : Type 0} (fw : Framework) (answer : Result FrameworkError A × Framework)
    : Type 0 where
  pub same : core answer.1 ≡ core fw
  pub ends : answer.0 ≢ err out_of_fuel

pub ok-Quiet : {A : Type 0} (a : A) (fw d : Framework) → core d ≡ core fw → Quiet fw (ok a, d)
ok-Quiet a fw d same = record { same = same; ends = λ q. cc }

err-Quiet :
    {A : Type 0} (e : FrameworkError) (fw d : Framework)
    → e ≢ out_of_fuel
    → core d ≡ core fw
    → Quiet {A = A} fw (err e, d)
err-Quiet e fw d ne same = record { same = same; ends = λ q. ne (cc) }

pub demand-Quiet :
    (b : Bool) (e : FrameworkError) (fw : Framework) → e ≢ out_of_fuel → Quiet fw (demand b e fw)
demand-Quiet true e fw ne = ok-Quiet tt fw fw refl
demand-Quiet false e fw ne = err-Quiet e fw fw ne refl

go_on-Quiet :
    {A B : Type 0} (f : A → Step B) (answer : Result FrameworkError A × Framework) (fw : Framework)
    → Quiet fw answer
    → ((a : A) (d : Framework) → Quiet d (f a d))
    → Quiet fw (go_on f answer)
go_on-Quiet f (ok a, d) fw h rest = record {
  same = Quiet.same (rest a d) ∙ h.same;
  ends = Quiet.ends (rest a d);
}
go_on-Quiet f (err e, d) fw h rest = record { same = h.same; ends = λ q. h.ends (cc) }

-- A quiet step after a change that keeps the core.
after-Quiet :
    {A : Type 0} (fw d : Framework) (answer : Result FrameworkError A × Framework)
    → core d ≡ core fw
    → Quiet d answer
    → Quiet fw answer
after-Quiet fw d answer same h = record { same = h.same ∙ same; ends = h.ends }

push_slot-Quiet :
    (w : World) (slot : Text) (reg meta : ℕ) (entries : List ℕ) (fw : Framework)
    → Quiet fw (push_slot w slot reg meta entries fw)
unfolding push_slot core push_entry record_guarded_outcome
push_slot-Quiet w slot reg meta [] fw = ok-Quiet tt fw fw refl
push_slot-Quiet w slot reg meta (entry ∷ entries) fw = elim (Bool-cases (w.push_panics reg entry)) [
  | inl panics ↦ rw panics (err-Quiet crashed_call fw _ (λ q. cc) refl)
  | inr fine ↦
      let next =
        record_guarded_outcome slot true
          (push_entry reg (record { entry = entry; ext_meta = meta }) fw) in
      rw fine (after-Quiet fw next _ refl (push_slot-Quiet w slot reg meta entries next))
]

pub push_slots-Quiet :
    (w : World) (lib : Library) (meta : ℕ) (slots : List (Text × ℕ)) (fw : Framework)
    → Quiet fw (push_slots w lib meta slots fw)
unfolding push_slots
push_slots-Quiet w lib meta [] fw = ok-Quiet tt fw fw refl
push_slots-Quiet w lib meta ((slot, reg) ∷ slots) fw =
    go_on-Quiet _ (push_slot w slot reg meta (created lib slot) fw) fw
      (push_slot-Quiet w slot reg meta (created lib slot) fw)
      (λ done d. push_slots-Quiet w lib meta slots d)

pub check_slots-Quiet : (slots : List Text) (fw : Framework) → Quiet fw (check_slots slots fw)
unfolding check_slots
check_slots-Quiet [] fw = ok-Quiet tt fw fw refl
check_slots-Quiet (slot ∷ slots) fw = elim (Bool-cases (is_there (find slot fw.slot_map))) [
  | inl there ↦ rw there (check_slots-Quiet slots fw)
  | inr missing ↦ rw missing (err-Quiet (slot_not_registered slot) fw fw (λ q. cc) refl)
]

pub run_init-Quiet : (outcome : Option Outcome) (fw : Framework) → Quiet fw (run_init outcome fw)
unfolding run_init
run_init-Quiet none fw = ok-Quiet tt fw fw refl
run_init-Quiet (some crashed) fw = err-Quiet crashed_call fw fw (λ q. cc) refl
run_init-Quiet (some (returned rc)) fw = demand-Quiet (is_zero rc) init fw (λ q. cc)
