-- ===== src/Extensions/Drains.antt =====
-- crates/around-extensions/src/lib.rs: what `drain_pending` hands to a new slot's register.
use mathlib.Core.List.{append-nil, append_assoc}
use around.Base.{
  ℕ, ◌++◌, ◌==◌, Bool, true, false, not, ◌&&◌, if◌then◌else◌, some, List, [], ◌∷◌, map, select, ◌≡◌,
  refl, sym, ap, ◌∙◌, inl, inr, Bool-cases, arith,
}
use around.Base.Text.{Text, text_eq}
use around.Base.Dict.{find, put, find-put, text_eq_self}
use around.Extensions.State.{World, Framework, PendingEntry, RegEntry, static}
use around.Extensions.Slots.{or_new, drain, drain_pending, push_entry, attach_register}

module _ (w : World) (slot : Text) (reg : ℕ) where
  -- Entries for the slot whose push does not panic.
  abbrev pub is_taken : PendingEntry → Bool
  is_taken pe = text_eq pe.slot_name slot && not (w.push_panics reg pe.entry)

  abbrev pub stays : PendingEntry → Bool
  stays pe = not (is_taken pe)

  abbrev pub as_entry : PendingEntry → RegEntry
  as_entry pe = record { entry = pe.entry; ext_meta = pe.ext_meta }

  -- The register with more entries, beside the others.
  abbrev pub with_entries : (ℕ → List RegEntry) → List PendingEntry → ℕ → List RegEntry
  with_entries registers pes r =
      if r == reg then registers r ++ map as_entry (select is_taken pes) else registers r

  record DrainedFrom (pes remaining : List PendingEntry) (fw after : Framework) : Type 0 where
    waiting : after.pending ≡ remaining ++ select stays pes
    pushed : (r : ℕ) → after.registers r ≡ with_entries fw.registers pes r
    same_slots : after.slot_map ≡ fw.slot_map

  waits :
      (pe : PendingEntry) (pes remaining : List PendingEntry) (fw after : Framework)
      → is_taken pe ≡ false
      → DrainedFrom pes (remaining ++ pe ∷ []) fw after
      → DrainedFrom (pe ∷ pes) remaining fw after
  waits pe pes remaining fw after not_taken h = record {
    waiting = h.waiting ∙ rw not_taken (append_assoc remaining (pe ∷ []) (select stays pes));
    pushed = λ r. h.pushed r ∙ rw not_taken refl;
    same_slots = h.same_slots;
  }

  pushes :
      (pe : PendingEntry) (pes remaining : List PendingEntry) (fw after : Framework)
      → is_taken pe ≡ true
      → DrainedFrom pes remaining (push_entry reg (as_entry pe) fw) after
      → DrainedFrom (pe ∷ pes) remaining fw after
  unfolding push_entry
  pushes pe pes remaining fw after taken h = record {
    waiting = h.waiting ∙ rw taken refl;
    pushed = λ r. h.pushed r ∙ one_pushed r;
    same_slots = h.same_slots;
  }
    where
      one_pushed :
          (r : ℕ)
          → with_entries (push_entry reg (as_entry pe) fw).registers pes r
            ≡ with_entries fw.registers (pe ∷ pes) r
      one_pushed r = elim (Bool-cases (r == reg)) [
        | inl here ↦ rw here (
            rw taken (
              append_assoc (fw.registers r) (as_entry pe ∷ [])
                (map as_entry (select is_taken pes))))
        | inr other ↦ rw other refl
      ]

  none_taken : (fw : Framework) (r : ℕ) → fw.registers r ≡ with_entries fw.registers [] r
  none_taken fw r = elim (Bool-cases (r == reg)) [
    | inl here ↦ rw here (sym (append-nil (fw.registers r)))
    | inr other ↦ rw other refl
  ]

  drain-DrainedFrom :
      (pes remaining : List PendingEntry) (fw : Framework)
      → DrainedFrom pes remaining fw (drain w slot reg pes remaining fw)
  unfolding drain
  drain-DrainedFrom [] remaining fw = record {
    waiting = sym (append-nil remaining);
    pushed = none_taken fw;
    same_slots = refl;
  }
  drain-DrainedFrom (pe ∷ pes) remaining fw = elim (Bool-cases (text_eq pe.slot_name slot)) [
    | inr other ↦ rw other (
        waits pe pes remaining fw _ (ground (arith, other))
          (drain-DrainedFrom pes (remaining ++ pe ∷ []) fw))
    | inl same ↦ elim (Bool-cases (w.push_panics reg pe.entry)) [
      | inl panics ↦
          rw (same, panics)
            (waits pe pes remaining fw _ (ground (arith, same, panics))
              (drain-DrainedFrom pes (remaining ++ pe ∷ []) fw))
      | inr fine ↦
          rw (same, fine)
            (pushes pe pes remaining fw _ (ground (arith, same, fine))
              (drain-DrainedFrom pes remaining (push_entry reg (as_entry pe) fw)))
    ]
  ]

  -- A framework after a slot was given to it.
  pub record Attached (fw after : Framework) : Type 0 where
    pub in_map : find slot after.slot_map ≡ some (static reg)
    pub other_slots :
        (other : Text)
        → text_eq slot other ≡ false
        → find other after.slot_map ≡ find other fw.slot_map
    pub waiting : after.pending ≡ select stays fw.pending
    pub pushed : (r : ℕ) → after.registers r ≡ with_entries fw.registers fw.pending r

  -- `attach_register` puts the slot in the map, in place of one of the same name, and hands its register
  -- exactly the buffered entries for it whose push does not panic, in their order. The rest stays
  -- buffered, in its order.
  pub attach_register-Attached : (fw : Framework) → Attached fw (attach_register w slot reg fw)
  unfolding attach_register drain_pending
  attach_register-Attached fw =
      let mapped : Framework = record fw {
        slot_map = put slot (static reg) fw.slot_map;
        slot_trust = or_new slot (find slot fw.slot_trust) fw.slot_trust;
      } in
      let d = drain-DrainedFrom fw.pending [] mapped in
      record {
        in_map =
            ap (find slot) d.same_slots
            ∙ rw (find-put slot slot (static reg) fw.slot_map) (rw (text_eq_self slot) refl);
        other_slots = λ other ne.
            ap (find other) d.same_slots
            ∙ rw (find-put other slot (static reg) fw.slot_map) (rw ne refl);
        waiting = d.waiting;
        pushed = d.pushed;
      }
