-- ===== src/Extensions/Slots.antt =====
-- crates/around-extensions/src/lib.rs: slots, their registers and the entries that wait for them.
-- The registers are those of crates/around-extensions-macros in their `Vec` mode.
use around.Base.{
  ℕ, ◌==◌, Bool, true, false, not, if◌then◌else◌, Option, none, some, List, [], ◌∷◌, ◌++◌,
}
use around.Base.Text.{Text, text_eq}
use around.Base.Dict.{Dict, find, put, retain}
use around.Extensions.Trust
use around.Extensions.Trust.{TrustCounter, new_counter, is_trusted}
use around.Extensions.State.{
  World, Framework, SlotStorage, static, owned, reg_of, PendingEntry, RegEntry,
}

-- `push` of a register.
unfoldable pub push_entry : ℕ → RegEntry → Framework → Framework
push_entry reg e fw = record fw {
  registers = λ r. if r == reg then fw.registers r ++ e ∷ [] else fw.registers r;
}

-- `entries.retain(..)`
unfoldable pub without_meta : ℕ → List RegEntry → List RegEntry
without_meta meta [] = []
without_meta meta (e ∷ es) =
    if e.ext_meta == meta then without_meta meta es else e ∷ without_meta meta es

-- `remove_by_meta` of a register.
unfoldable pub remove_by_meta : ℕ → ℕ → Framework → Framework
remove_by_meta reg meta fw = record fw {
  registers = λ r. if r == reg then without_meta meta (fw.registers r) else fw.registers r;
}

-- `remove_by_meta` on the register of every slot.
unfoldable pub remove_from_all : Dict SlotStorage → ℕ → Framework → Framework
remove_from_all [] meta fw = fw
remove_from_all ((name, storage) ∷ slots) meta fw =
    remove_from_all slots meta (remove_by_meta (reg_of storage) meta fw)

-- `retain` of `remove_owned_slots`.
unfoldable pub not_owned_by : Text → Text → SlotStorage → Bool
not_owned_by owner name (static reg) = true
not_owned_by owner name (owned reg other) = not (text_eq other owner)

unfoldable pub remove_owned_slots : Text → Framework → Framework
remove_owned_slots owner fw = record fw { slot_map = retain (not_owned_by owner) fw.slot_map }

-- `if let Some(counter) = slot_trust.get(slot_name) { counter.record_guarded_outcome(success) }`
counted : Text → Bool → Option TrustCounter → Dict TrustCounter → Dict TrustCounter
counted slot success none d = d
counted slot success (some c) d = put slot (Trust.record_guarded_outcome success c).1 d

unfoldable pub record_guarded_outcome : Text → Bool → Framework → Framework
unfolding counted
record_guarded_outcome slot success fw = record fw {
  slot_trust = counted slot success (find slot fw.slot_trust) fw.slot_trust;
}

trusted_counter : Option TrustCounter → Bool
trusted_counter none = false
trusted_counter (some c) = is_trusted c

unfoldable pub is_slot_trusted : Text → Framework → Bool
unfolding trusted_counter
is_slot_trusted slot fw = trusted_counter (find slot fw.slot_trust)

-- `entry(name).or_insert_with(..)`
unfoldable pub or_new : Text → Option TrustCounter → Dict TrustCounter → Dict TrustCounter
or_new name (some c) d = d
or_new name none d = put name (new_counter 100) d

module _ (w : World) where
  -- The loop over the buffered entries, with what `remaining` holds so far.
  unfoldable pub drain : Text → ℕ → List PendingEntry → List PendingEntry → Framework → Framework
  drain slot reg [] remaining fw = record fw { pending = remaining }
  drain slot reg (pe ∷ pes) remaining fw =
      let wait = drain slot reg pes (remaining ++ pe ∷ []) fw in
      let push =
        drain slot reg pes remaining
          (push_entry reg (record { entry = pe.entry; ext_meta = pe.ext_meta }) fw) in
      if text_eq pe.slot_name slot
      then (if w.push_panics reg pe.entry then wait else push)
      else wait

  unfoldable pub drain_pending : Text → ℕ → Framework → Framework
  drain_pending slot reg fw = drain slot reg fw.pending [] fw

  unfoldable pub attach_register : Text → ℕ → Framework → Framework
  unfolding or_new
  attach_register name reg fw = drain_pending name reg (record fw {
    slot_map = put name (static reg) fw.slot_map;
    slot_trust = or_new name (find name fw.slot_trust) fw.slot_trust;
  })

  unfoldable pub attach_register_owned : Text → ℕ → Text → Framework → Framework
  attach_register_owned name reg owner fw =
      drain_pending name reg (record fw { slot_map = put name (owned reg owner) fw.slot_map })
