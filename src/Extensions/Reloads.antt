-- ===== src/Extensions/Reloads.antt =====
-- crates/around-extensions/src/lib.rs: how `commit_reload` ends.
use around.Extensions.Unloads.{find-others}
use around.Base.Stateful.{go_on, ◌>>◌}
use around.Base.{ℕ, true, false, Option, none, some, ok, ◌≡◌, ◌↔◌, refl, sym, ap, subst, ◌∙◌}
use around.Base.Text.{Text, text_eq}
use around.Base.Dict.{find, put, delete, find-put, is_there, text_eq_self}
use around.Extensions.State.{World, Framework, contains}
use around.Extensions.Unload.{check_dependents, no_dependents, dependent_of}
use around.Extensions.Reload.{
  PendingReload, replace_extension, commit_reload, name_of_ptr, or_missing,
}
use around.Extensions.Consistent.{IsConsistent, put-IsConsistent, delete-IsConsistent}
use around.Extensions.Keeps.{core, Core}
use around.Extensions.Unloading.{dependent_of-none}
use around.Extensions.Reloading.{Succeeds, go_on-Succeeds, taken, put_new, replace_extension-core}

-- A framework after a reload of the extension `name`.
pub record Reloaded (name : Text) (p : PendingReload) (fw after : Framework) : Type 0 where
  pub library : find name after.loaded ≡ some p.lib
  pub meta : find name after.loaded_meta ≡ some p.meta
  pub others :
      (other : Text) → text_eq name other ≡ false → find other after.loaded ≡ find other fw.loaded
  pub consistent_iff : IsConsistent after.loaded after.loaded_meta ↔ (
      (dep : Text)
      → contains dep p.meta.meta.depends_on ≡ true
      → is_there (find dep after.loaded) ≡ true)

module _ (name : Text) (p : PendingReload) (fw after : Framework) where
  replaced_loaded :
      core after ≡ put_new name p (taken name fw)
      → after.loaded ≡ put name p.lib (delete name fw.loaded)
  unfolding core
  replaced_loaded same = ap (λ (c : Core). c.0) same

  replaced_metas :
      core after ≡ put_new name p (taken name fw)
      → after.loaded_meta ≡ put name p.meta (delete name fw.loaded_meta)
  unfolding core
  replaced_metas same = ap (λ (c : Core). c.1) same

  core-Reloaded :
      IsConsistent fw.loaded fw.loaded_meta
      → dependent_of name fw.loaded_meta ≡ none
      → core after ≡ put_new name p (taken name fw)
      → Reloaded name p fw after
  core-Reloaded h free same =
      let l = replaced_loaded same in
      let m = replaced_metas same in
      let old =
        delete-IsConsistent name p.lib p.meta fw.loaded fw.loaded_meta h
          (λ other o ne found. dependent_of-none name fw.loaded_meta other o free ne found) in
      let meta_there : find name after.loaded_meta ≡ some p.meta =
        ap (find name) m
        ∙ rw (find-put name name p.meta (delete name fw.loaded_meta))
            (rw (text_eq_self name) refl) in
      record {
        library =
            ap (find name) l
            ∙ rw (find-put name name p.lib (delete name fw.loaded)) (rw (text_eq_self name) refl);
        meta = meta_there;
        others = λ other ne.
            ap (find other) l
            ∙ rw (find-put other name p.lib (delete name fw.loaded))
                (rw ne (find-others name other fw.loaded ne));
        consistent_iff = (
          λ c dep needs. c.closed name dep p.meta meta_there needs,
          λ deps.
              subst (λ x. IsConsistent x after.loaded_meta) (sym l)
                (subst (IsConsistent (put name p.lib (delete name fw.loaded))) (sym m) (
                  put-IsConsistent name p.lib p.meta (delete name fw.loaded)
                    (delete name fw.loaded_meta) old
                    (λ dep needs. subst (λ x. is_there (find dep x) ≡ true) l (deps dep needs)))),
        );
      }

checked :
    (name : Text) (o : Option Text) (fw : Framework) (t : Unit {0})
    → (no_dependents name o fw).0 ≡ ok t
    → (o ≡ none) × ((no_dependents name o fw).1 ≡ fw)
unfolding no_dependents
checked name none fw t q = (refl, refl)
checked name (some d) fw t q = cc

module _ (w : World) (old : ℕ) (p : PendingReload) (fw : Framework)
    (h : IsConsistent fw.loaded fw.loaded_meta) where
  abbrev pub ReloadedOne : Framework → Type 0
  ReloadedOne d =
      (name : Text) × (name_of_ptr old fw.loaded_meta ≡ some name) × Reloaded name p fw d

  after_name :
      (name : Text)
      → name_of_ptr old fw.loaded_meta ≡ some name
      → Succeeds ReloadedOne
          (go_on (λ t. replace_extension w name old p) (check_dependents name fw))
  unfolding check_dependents
  after_name name found =
      go_on-Succeeds ReloadedOne _ (no_dependents name (dependent_of name fw.loaded_meta) fw)
        (λ t q.
          let c = checked name (dependent_of name fw.loaded_meta) fw t q in
          subst (λ d. Succeeds ReloadedOne (replace_extension w name old p d)) (sym c.1)
            (λ t' q'. (
              name,
              found,
              core-Reloaded name p fw _ h c.0 (replace_extension-core w name p fw old t' q'),
            )))

  by_name :
      (o : Option Text)
      → ((name : Text) → o ≡ some name → name_of_ptr old fw.loaded_meta ≡ some name)
      → Succeeds ReloadedOne (
          go_on (λ name. check_dependents name >> replace_extension w name old p) (or_missing o fw))
  unfolding or_missing
  by_name none found = λ t q. cc
  by_name (some name) found = after_name name (found name refl)

  -- `commit_reload` on a consistent framework, where it succeeds, puts the new library and metadata in
  -- the place of the extension whose metadata was given, and leaves the others. The framework is then
  -- consistent exactly where what the new version depends on is loaded, which the reload does not check.
  pub commit_reload-Reloaded :
      (commit_reload w old p fw).0 ≡ ok tt → ReloadedOne (commit_reload w old p fw).1
  unfolding commit_reload
  commit_reload-Reloaded q = by_name (name_of_ptr old fw.loaded_meta) (λ name found. found) tt q
