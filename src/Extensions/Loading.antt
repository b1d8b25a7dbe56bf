-- ===== src/Extensions/Loading.antt =====
-- crates/around-extensions/src/lib.rs: steps of `load` that end well.
use around.Base.{
  true, List, [], ◌∷◌, Result, ok, err, err_inj, ◌≡◌, ◌≢◌, refl, sym, ap, subst, ◌∙◌, inl, inr,
  Bool-cases, arith,
}
use around.Base.Text.{Text, text_eq, text_eq_iff}
use around.Base.Dict.{find, put, is_there, text_eq_self}
use around.Base.Stateful.{go_on}
use around.Extensions.State.{
  Framework, Library, IndexedMeta, OwnedMeta, FrameworkError, out_of_fuel, contains,
}
use around.Extensions.Load.{Step, install, load_deps}
use around.Extensions.Lifecycle.{broadcast}
use around.Extensions.Consistent.{IsConsistent, Has-put, Has-put_self, put-IsConsistent}
use around.Extensions.Known.{Indexed}
use around.Extensions.Keeps.{ok-Quiet, Core, core, Quiet}
use around.Extensions.Installing.{Installed, failed, installed}

pub record Ready (names : List Text) (fw : Framework) : Type 0 where
  pub consistent : IsConsistent fw.loaded fw.loaded_meta
  pub indexed : Indexed names fw.index

-- How a step ends that loads extensions: well, and with `P` of what it answers.
pub record Done {A : Type 0} (names : List Text) (P : A → Framework → Type 0) (fw : Framework)
    (answer : Result FrameworkError A × Framework) : Type 0 where
  pub ready : Ready names answer.1
  pub claims : answer.1.loading ≡ fw.loading
  pub grows :
      (other : Text)
      → is_there (find other fw.loaded) ≡ true
      → is_there (find other answer.1.loaded) ≡ true
  pub ends : answer.0 ≢ err out_of_fuel
  pub done : (a : A) → answer.0 ≡ ok a → P a answer.1

module _ (names : List Text) where
  pub go_on-Done :
      {A B : Type 0} (P : A → Framework → Type 0) (Q : B → Framework → Type 0) (f : A → Step B)
      (fw : Framework) (answer : Result FrameworkError A × Framework)
      → Done names P fw answer
      → ((a : A) (d : Framework)
          → Ready names d
          → d.loading ≡ fw.loading
          → ((other : Text)
              → is_there (find other fw.loaded) ≡ true
              → is_there (find other d.loaded) ≡ true)
          → P a d
          → Done names Q d (f a d))
      → Done names Q fw (go_on f answer)
  go_on-Done P Q f fw (err x, d) h rest = record {
    ready = h.ready;
    claims = h.claims;
    grows = h.grows;
    ends = λ q. h.ends (ap err (err_inj q));
    done = λ b q. cc;
  }
  go_on-Done P Q f fw (ok a, d) h rest =
      let r = rest a d h.ready h.claims h.grows (h.done a refl) in
      record {
        ready = r.ready;
        claims = r.claims ∙ h.claims;
        grows = λ other there. r.grows other (h.grows other there);
        ends = r.ends;
        done = r.done;
      }

  -- A quiet step is such a step.
  pub Quiet-Done :
      {A : Type 0} (fw : Framework) (answer : Result FrameworkError A × Framework)
      → Ready names fw
      → Quiet fw answer
      → Done names (λ a d. core d ≡ core fw) fw answer
  unfolding core
  Quiet-Done fw answer h q = record {
    ready = record {
      consistent = subst (λ (c : Core). IsConsistent c.0 c.1) (sym q.same) h.consistent;
      indexed = subst (λ (c : Core). Indexed names c.3) (sym q.same) h.indexed;
    };
    claims = ap (λ c. c.2) q.same;
    grows = λ other there. subst (λ c. is_there (find other c.0) ≡ true) (sym q.same) there;
    ends = q.ends;
    done = λ a e. q.same;
  }

  -- Where the last step ends, the extension is loaded.
  abbrev pub IsLoaded : Text → Library → Framework → Type 0
  IsLoaded name lib d = is_there (find name d.loaded) ≡ true

  module _ (name : Text) (e : Text × IndexedMeta) (fw : Framework) (h : Ready names fw)
      (deps : (dep : Text)
        → contains dep e.1.depends_on ≡ true
        → is_there (find dep fw.loaded) ≡ true) where
    install-Done :
        (lib : Library) (m : OwnedMeta) (d : Framework)
        → m.meta ≡ e.1
        → core d ≡ core fw
        → Done names (IsLoaded name) fw (ok lib, install name lib m d)
    unfolding install broadcast core
    install-Done lib m d same_meta same =
        let here = Quiet-Done fw (ok tt, d) h (ok-Quiet tt fw d same) in
        let loaded_deps : (dep : Text)
            → contains dep m.meta.depends_on ≡ true
            → is_there (find dep (put name lib d.loaded)) ≡ true =
          λ dep needs. Has-put dep name lib d.loaded (
            here.grows dep (
              deps dep
                (subst (λ (x : IndexedMeta). contains dep x.depends_on ≡ true) same_meta needs))) in
        record {
          ready = record {
            consistent =
                put-IsConsistent name lib m d.loaded d.loaded_meta here.ready.consistent
                  loaded_deps;
            indexed = here.ready.indexed;
          };
          claims = here.claims;
          grows = λ other there. Has-put other name lib d.loaded (here.grows other there);
          ends = λ q. cc;
          done = λ a q. Has-put_self name lib d.loaded;
        }

    pub Installed-Done :
        (answer : Result FrameworkError Library × Framework)
        → Installed name e fw answer
        → Done names (IsLoaded name) fw answer
    Installed-Done answer (failed x d ne same) =
        let here =
          Quiet-Done fw (err x, d) h (record { same = same; ends = λ q. ne (err_inj q) }) in
        record {
          ready = here.ready;
          claims = here.claims;
          grows = here.grows;
          ends = here.ends;
          done = λ a q. cc;
        }
    Installed-Done answer (installed lib m d _ same_meta same eq) =
        subst (Done names (IsLoaded name) fw) (sym eq) (install-Done lib m d same_meta same)

  -- All of the dependencies are loaded.
  abbrev pub AllLoaded : List Text → Unit {0} → Framework → Type 0
  AllLoaded deps t d = (dep : Text) → contains dep deps ≡ true → is_there (find dep d.loaded) ≡ true

  module _ (load_one : Text → Step Library) (claims : List Text)
      (one : (dep : Text) (d : Framework)
        → Ready names d
        → d.loading ≡ claims
        → contains dep names ≡ true
        → Done names (IsLoaded dep) d (load_one dep d)) where
    pub load_deps-Done :
        (deps : List Text) (fw : Framework)
        → Ready names fw
        → fw.loading ≡ claims
        → ((dep : Text) → contains dep deps ≡ true → contains dep names ≡ true)
        → Done names (AllLoaded deps) fw (load_deps load_one deps fw)
    unfolding load_deps contains
    load_deps-Done [] fw h same known = record {
      ready = h;
      claims = refl;
      grows = λ other there. there;
      ends = λ q. cc;
      done = λ a q dep there. cc;
    }
    load_deps-Done (dep ∷ deps) fw h same known =
        go_on-Done (IsLoaded dep) (AllLoaded (dep ∷ deps)) _ fw (load_one dep fw)
          (one dep fw h same (known dep (ground (arith, text_eq_self dep))))
          (λ lib d ready back grows loaded.
            let later =
              load_deps-Done deps d ready (back ∙ same)
                (λ x there. known x (ground (arith, there))) in
            record {
              ready = later.ready;
              claims = later.claims;
              grows = later.grows;
              ends = later.ends;
              done = λ t q x there. elim (Bool-cases (text_eq dep x)) [
                | inl is_dep ↦
                    subst (λ n. is_there (find n (load_deps load_one deps d).1.loaded) ≡ true)
                      ((text_eq_iff dep x).0 is_dep) (later.grows dep loaded)
                | inr other ↦ later.done t q x (ground (arith, other, there))
              ];
            })
