-- ===== src/Extensions/LoadEnds.antt =====
-- crates/around-extensions/src/lib.rs: `load` ends, keeps the framework consistent and gives every
-- claim back.
use around.Base.{
  ℕ, zero, suc, ◌<◌, ◌==◌, true, false, Option, none, some, List, ◌∷◌, Result, ◌≡◌, refl, sym, ap,
  subst, ◌∙◌, inl, inr, Bool-cases, arith,
}
use around.Base.Text.{Text}
use around.Base.Dict.{find, is_there}
use around.Extensions.State.{
  World, Framework, Library, IndexedMeta, FrameworkError, contains, without, api_version_mismatch,
  current_api_version,
}
use around.Extensions.Load.{
  Step, load_deps, load_claimed, load_step, unclaim, load_extension, resolve,
}
use around.Extensions.Consistent.{IsConsistent}
use around.Extensions.Known.{Needs, OnDisk, Resolved, resolve-Resolved}
use around.Extensions.Keeps.{check_slots-Quiet, demand-Quiet}
use around.Extensions.Installing.{load_library-Installed}
use around.Extensions.Claims.{unclaimed, claim_lt, without_claim}
use around.Extensions.Loading.{
  Ready, Done, go_on-Done, Quiet-Done, IsLoaded, AllLoaded, Installed-Done, load_deps-Done,
}

module _ (w : World) (names : List Text) (disk : OnDisk w names) where
  Resolved-Done :
      (fw : Framework) (answer : Result FrameworkError (Text × IndexedMeta) × Framework)
      → Ready names fw
      → Resolved names fw answer
      → Done names (λ e d. Needs names e) fw answer
  Resolved-Done fw answer h r = record {
    ready = record {
      consistent =
          subst (λ l. IsConsistent l answer.1.loaded_meta) (sym r.same_loaded)
            (subst (IsConsistent fw.loaded) (sym r.same_metas) h.consistent);
      indexed = r.indexed;
    };
    claims = r.same_claims;
    grows = λ other there. subst (λ l. is_there (find other l) ≡ true) (sym r.same_loaded) there;
    ends = r.ends;
    done = r.known;
  }

  load_claimed-Done :
      (load_one : Text → Step Library) (name : Text) (fw : Framework)
      → Ready names fw
      → ((dep : Text) (d : Framework)
          → Ready names d
          → d.loading ≡ fw.loading
          → contains dep names ≡ true
          → Done names (IsLoaded names dep) d (load_one dep d))
      → Done names (IsLoaded names name) fw (load_claimed w load_one name fw)
  unfolding load_claimed
  load_claimed-Done load_one name fw h one =
      go_on-Done names (λ e d. Needs names e) (IsLoaded names name) _ fw (resolve w name fw)
        (Resolved-Done fw _ h (resolve-Resolved w names name fw disk h.indexed))
        (λ e d1 h1 c1 g1 known.
          go_on-Done names _ (IsLoaded names name) _ d1 _
            (Quiet-Done names d1 _ h1 (
              demand-Quiet (e.1.api_version == current_api_version)
                (api_version_mismatch current_api_version e.1.api_version) d1 (λ q. cc)))
            (λ t2 d2 h2 c2 g2 p2.
              go_on-Done names _ (IsLoaded names name) _ d2 _
                (Quiet-Done names d2 _ h2 (check_slots-Quiet e.1.depends_on_slots d2))
                (λ t3 d3 h3 c3 g3 p3.
                  go_on-Done names (AllLoaded names e.1.depends_on) (IsLoaded names name) _ d3
                    (load_deps load_one e.1.depends_on d3)
                    (load_deps-Done names load_one fw.loading one e.1.depends_on d3 h3
                      (c3 ∙ c2 ∙ c1) known)
                    (λ t4 d4 h4 c4 g4 deps.
                      Installed-Done names name e d4 h4 deps _
                        (load_library-Installed name e d4 w)))))

  unclaim-Done :
      (name : Text) (fw : Framework) (answer : Result FrameworkError Library × Framework)
      → contains name fw.loading ≡ false
      → Done names (IsLoaded names name) (record fw { loading = name ∷ fw.loading }) answer
      → Done names (IsLoaded names name) fw (unclaim name answer)
  unfolding unclaim
  unclaim-Done name fw answer free h = record {
    ready = record { consistent = h.ready.consistent; indexed = h.ready.indexed };
    claims = ap (without name) h.claims ∙ without_claim name fw.loading free;
    grows = h.grows;
    ends = h.ends;
    done = h.done;
  }

  load_step-Done :
      (load_one : Text → Step Library) (name : Text) (fw : Framework) (o : Option Library)
      → find name fw.loaded ≡ o
      → Ready names fw
      → ((dep : Text) (d : Framework)
          → contains name fw.loading ≡ false
          → Ready names d
          → d.loading ≡ name ∷ fw.loading
          → contains dep names ≡ true
          → Done names (IsLoaded names dep) d (load_one dep d))
      → Done names (IsLoaded names name) fw (load_step w load_one name o fw)
  unfolding load_step is_there
  load_step-Done load_one name fw (some lib) found h one = record {
    ready = h;
    claims = refl;
    grows = λ other there. there;
    ends = λ q. cc;
    done = λ a q. subst (λ o. is_there o ≡ true) (sym found) refl;
  }
  load_step-Done load_one name fw none found h one = elim (Bool-cases (contains name fw.loading)) [
    | inl circular ↦ rw circular (record {
      ready = h;
      claims = refl;
      grows = λ other there. there;
      ends = λ q. cc;
      done = λ a q. cc;
    })
    | inr free ↦ rw free (
        unclaim-Done name fw _ free (
          load_claimed-Done load_one name (record fw { loading = name ∷ fw.loading })
            (record { consistent = h.consistent; indexed = h.indexed })
            (λ dep d ready same known. one dep d free ready same known)))
  ]

  -- Where `names` holds all that the extensions on disk and in the index depend on, and there are more
  -- rounds than names of it that are not being loaded, `load` of such a name ends by itself, also where
  -- dependencies are circular. Whatever the answer, every claim is given back, no extension is lost,
  -- and each loaded extension still has its metadata and its dependencies loaded. On success the
  -- extension is loaded.
  pub load_extension-Done :
      (fuel : ℕ) (name : Text) (fw : Framework)
      → Ready names fw
      → contains name names ≡ true
      → unclaimed names fw.loading < fuel
      → Done names (IsLoaded names name) fw (load_extension w fuel name fw)
  unfolding load_extension
  load_extension-Done zero name fw h known enough = absurd (omega arith)
  load_extension-Done (suc fuel) name fw h known enough =
      load_step-Done (load_extension w fuel) name fw (find name fw.loaded) refl h
        (λ dep d free ready same known_dep. load_extension-Done fuel dep d ready known_dep (
          subst (λ l. unclaimed names l < fuel) (sym same)
            (omega (arith, claim_lt names fw.loading name known free))))
