-- ===== src/Extensions/Unloading.antt =====
-- crates/around-extensions/src/lib.rs: what `unload` takes away.
use around.Base.{
  some_inj, ◌⊎◌, ℕ, ◌==◌, false, if◌then◌else◌, none, some, List, [], ◌∷◌, All, ◌≡◌, ◌≢◌, refl, ap,
  subst, inl, inr, Bool-cases, arith,
}
use around.Base.Text.{Text, text_eq, text_eq_iff}
use around.Base.Dict.{Dict, find, retain}
use around.Extensions.State.{
  Framework, OwnedMeta, SlotStorage, static, owned, reg_of, RegEntry, contains,
}
use around.Extensions.Slots.{not_owned_by, remove_from_all, remove_by_meta, without_meta}
use around.Extensions.Unload.{dependent_of}

-- Where no dependent is found, no other extension needs the name.
pub dependent_of-none :
    (name : Text) (metas : Dict OwnedMeta) (other : Text) (m : OwnedMeta)
    → dependent_of name metas ≡ none
    → text_eq name other ≡ false
    → find other metas ≡ some m
    → contains name m.meta.depends_on ≡ false
unfolding dependent_of find
dependent_of-none name [] other m free ne found = cc
dependent_of-none name ((key, k) ∷ metas) other m free ne found =
    elim (Bool-cases (text_eq key other)) [
      | inl here ↦ ground (
        arith,
        here,
        found,
        free,
        ne,
        text_eq_iff key other,
        text_eq_iff key name,
        text_eq_iff name other,
      )
      | inr there ↦
          dependent_of-none name metas other m (ground (arith, free)) ne
            (ground (arith, there, found))
    ]

-- A slot that an extension owns does not stay with it.
pub retain-owned :
    (name slot : Text) (reg : ℕ) (slots : Dict SlotStorage)
    → find slot (retain (not_owned_by name) slots) ≢ some (owned reg name)
unfolding find retain not_owned_by
retain-owned name slot reg [] h = cc
retain-owned name slot reg ((key, static r) ∷ slots) h =
    ground (arith, retain-owned name slot reg slots)
retain-owned name slot reg ((key, owned r owner) ∷ slots) h =
    ground (arith, text_eq_iff owner name, retain-owned name slot reg slots)

without_meta-All :
    (meta : ℕ) (es : List RegEntry) → All (λ e. e.ext_meta ≢ meta) (without_meta meta es)
unfolding without_meta
without_meta-All meta [] = tt
without_meta-All meta (e ∷ es) = elim (Bool-cases (e.ext_meta == meta)) [
  | inl same ↦ rw same (without_meta-All meta es)
  | inr other ↦ rw other (λ q. absurd (ground (arith, other, q)), without_meta-All meta es)
]

-- No entry of the list is from the extension whose metadata is in box `meta`.
abbrev pub Without : ℕ → List RegEntry → Type 0
Without meta es = All (λ e. e.ext_meta ≢ meta) es

remove_by_meta-Without :
    (reg meta r : ℕ) (fw : Framework)
    → (r ≡ reg) ⊎ Without meta (fw.registers r)
    → Without meta ((remove_by_meta reg meta fw).registers r)
unfolding remove_by_meta
remove_by_meta-Without reg meta r fw h = elim (Bool-cases (r == reg)) [
  | inl same ↦ rw same (without_meta-All meta (fw.registers r))
  | inr other ↦ rw other (elim h [ inl e ↦ absurd (ground (arith, other, e)) | inr clean ↦ clean ])
]

remove_from_all-keeps :
    (slots : Dict SlotStorage) (meta r : ℕ) (fw : Framework)
    → Without meta (fw.registers r)
    → Without meta ((remove_from_all slots meta fw).registers r)
unfolding remove_from_all
remove_from_all-keeps [] meta r fw h = h
remove_from_all-keeps ((name, storage) ∷ slots) meta r fw h =
    remove_from_all-keeps slots meta r _ (remove_by_meta-Without (reg_of storage) meta r fw (inr h))

-- The register of every slot is without the extension's entries.
pub remove_from_all-Without :
    (slots : Dict SlotStorage) (meta : ℕ) (fw : Framework) (slot : Text) (storage : SlotStorage)
    → find slot slots ≡ some storage
    → Without meta ((remove_from_all slots meta fw).registers (reg_of storage))
unfolding remove_from_all find
remove_from_all-Without [] meta fw slot storage there = cc
remove_from_all-Without ((key, s) ∷ slots) meta fw slot storage there =
    elim (Bool-cases (text_eq key slot)) [
      | inl here ↦
          let same : s ≡ storage =
            some_inj s storage
              (subst (λ b. (if b then some s else find slot slots) ≡ some storage) here there) in
          subst
            (λ r.
              Without meta
                ((remove_from_all slots meta (remove_by_meta (reg_of s) meta fw)).registers r))
            (ap reg_of same)
            (remove_from_all-keeps slots meta (reg_of s) (remove_by_meta (reg_of s) meta fw)
              (remove_by_meta-Without (reg_of s) meta (reg_of s) fw (inl refl)))
      | inr later ↦
          remove_from_all-Without slots meta (remove_by_meta (reg_of s) meta fw) slot storage
            (subst (λ b. (if b then some s else find slot slots) ≡ some storage) later there)
    ]

-- Only the registers change.
pub remove_from_all-registers :
    (slots : Dict SlotStorage) (meta : ℕ) (fw : Framework)
    → remove_from_all slots meta fw
      ≡ record fw { registers = (remove_from_all slots meta fw).registers }
unfolding remove_from_all remove_by_meta
remove_from_all-registers [] meta fw = refl
remove_from_all-registers ((name, storage) ∷ slots) meta fw =
    remove_from_all-registers slots meta (remove_by_meta (reg_of storage) meta fw)
