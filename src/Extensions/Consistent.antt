-- ===== src/Extensions/Consistent.antt =====
-- crates/around-extensions/src/lib.rs: every loaded extension has its metadata and what it depends on.
use around.Base.{
  true, false, if◌then◌else◌, none, some, ◌≡◌, some_inj, refl, sym, subst, ◌∙◌, inl, inr,
  Bool-cases,
}
use around.Base.Text.{Text, text_eq, text_eq_iff}
use around.Base.Dict.{Dict, find, put, delete, find-put, find-delete, text_eq_self}
use around.Extensions.State.{Library, OwnedMeta, contains}
use around.Base.Dict.{is_there}

pub record IsConsistent (loaded : Dict Library) (metas : Dict OwnedMeta) : Type 0 where
  -- A library is there exactly where its metadata is.
  pub same_names : (name : Text) → is_there (find name loaded) ≡ is_there (find name metas)
  -- Whatever a loaded extension depends on is loaded.
  pub closed :
      (name dep : Text) (m : OwnedMeta)
      → find name metas ≡ some m
      → contains dep m.meta.depends_on ≡ true
      → is_there (find dep loaded) ≡ true

pub Has-put :
    {V : Type 0} (at name : Text) (v : V) (d : Dict V)
    → is_there (find at d) ≡ true
    → is_there (find at (put name v d)) ≡ true
unfolding is_there
Has-put at name v d h =
    rw (find-put at name v d)
      (elim (Bool-cases (text_eq name at)) [ inl same ↦ rw same refl | inr other ↦ rw other h ])

pub Has-put_self :
    {V : Type 0} (name : Text) (v : V) (d : Dict V) → is_there (find name (put name v d)) ≡ true
unfolding is_there
Has-put_self name v d = rw (find-put name name v d) (rw (text_eq_self name) refl)

module _ (name : Text) (lib : Library) (m : OwnedMeta) (loaded : Dict Library)
    (metas : Dict OwnedMeta) (h : IsConsistent loaded metas) where
  put_same_names :
      (at : Text)
      → is_there (if text_eq name at then some lib else find at loaded)
        ≡ is_there (if text_eq name at then some m else find at metas)
  unfolding is_there
  put_same_names at = elim (Bool-cases (text_eq name at)) [
    | inl same ↦ rw same refl
    | inr other ↦ rw other (h.same_names at)
  ]

  delete_same_names :
      (at : Text)
      → is_there (if text_eq name at then none else find at loaded)
        ≡ is_there (if text_eq name at then none else find at metas)
  unfolding is_there
  delete_same_names at = elim (Bool-cases (text_eq name at)) [
    | inl same ↦ rw same refl
    | inr other ↦ rw other (h.same_names at)
  ]

  -- What an extension needs is loaded once it is added.
  put_closed :
      (at dep : Text) (n : OwnedMeta)
      → ((need : Text)
          → contains need m.meta.depends_on ≡ true
          → is_there (find need (put name lib loaded)) ≡ true)
      → (if text_eq name at then some m else find at metas) ≡ some n
      → contains dep n.meta.depends_on ≡ true
      → is_there (find dep (put name lib loaded)) ≡ true
  put_closed at dep n deps found needs = elim (Bool-cases (text_eq name at)) [
    | inl same ↦
        let e : m ≡ n =
          some_inj m n (subst (λ b. (if b then some m else find at metas) ≡ some n) same found) in
        deps dep (subst (λ (o : OwnedMeta). contains dep o.meta.depends_on ≡ true) (sym e) needs)
    | inr other ↦ Has-put dep name lib loaded (
        h.closed at dep n (subst (λ b. (if b then some m else find at metas) ≡ some n) other found)
          needs)
  ]

  pub put-IsConsistent :
      ((dep : Text)
        → contains dep m.meta.depends_on ≡ true
        → is_there (find dep (put name lib loaded)) ≡ true)
      → IsConsistent (put name lib loaded) (put name m metas)
  put-IsConsistent deps = record {
    same_names =
        λ at. rw (find-put at name lib loaded) (rw (find-put at name m metas) (put_same_names at));
    closed = λ at dep n found needs.
        put_closed at dep n deps (sym (find-put at name m metas) ∙ found) needs;
  }

  deleted_closed :
      (at dep : Text) (n : OwnedMeta)
      → ((other : Text) (o : OwnedMeta)
          → text_eq name other ≡ false
          → find other metas ≡ some o
          → contains name o.meta.depends_on ≡ false)
      → (if text_eq name at then none else find at metas) ≡ some n
      → contains dep n.meta.depends_on ≡ true
      → is_there (if text_eq name dep then none else find dep loaded) ≡ true
  deleted_closed at dep n free found needs = elim (Bool-cases (text_eq name at)) [
    | inl same ↦
        let e : none ≡ some n =
          subst (λ b. (if b then none else find at metas) ≡ some n) same found in
        cc e
    | inr other ↦
        let old : find at metas ≡ some n =
          subst (λ b. (if b then none else find at metas) ≡ some n) other found in
        elim (Bool-cases (text_eq name dep)) [
          | inl needed ↦
              let e : name ≡ dep = (text_eq_iff name dep).0 needed in
              let not_needed = free at n other old in
              let is_needed : contains name n.meta.depends_on ≡ true =
                subst (λ t. contains t n.meta.depends_on ≡ true) (sym e) needs in
              cc
          | inr kept ↦ rw kept (h.closed at dep n old needs)
        ]
  ]

  -- An extension that no other depends on is taken away.
  pub delete-IsConsistent :
      ((other : Text) (o : OwnedMeta)
        → text_eq name other ≡ false
        → find other metas ≡ some o
        → contains name o.meta.depends_on ≡ false)
      → IsConsistent (delete name loaded) (delete name metas)
  delete-IsConsistent free = record {
    same_names = λ at.
        rw (find-delete at name loaded) (rw (find-delete at name metas) (delete_same_names at));
    closed = λ at dep n found needs.
        rw (find-delete dep name loaded)
          (deleted_closed at dep n free (sym (find-delete at name metas) ∙ found) needs);
  }
