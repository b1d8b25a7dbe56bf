-- ===== src/Extensions/Installing.antt =====
-- crates/around-extensions/src/lib.rs: `load` from `dlopen` on.
use around.Base.{suc, Option, none, some, Result, ok, err, ◌≡◌, ◌≢◌, refl, ap, ◌∙◌}
use around.Base.Text.{Text}
use around.Base.Stateful.{go_on}
use around.Extensions.State.{
  World, Framework, Library, IndexedMeta, OwnedMeta, FrameworkError, out_of_fuel,
}
use around.Extensions.Load.{
  Step, install, load_library, opened_library, to_heap_ffi, run_init, register_slots, push_slots,
  slot_entries,
}
use around.Extensions.Keeps.{
  core, Quiet, register_slots-core, push_slots-Quiet, run_init-Quiet, ok-Quiet,
}

-- How `load_library` ends: by an error with nothing loaded, or by one `install`.
pub data Installed (name : Text) (e : Text × IndexedMeta) (fw : Framework)
    : Result FrameworkError Library × Framework → Type 0 where
  failed :
      (x : FrameworkError) (d : Framework)
      → x ≢ out_of_fuel
      → core d ≡ core fw
      → Installed name e fw (err x, d)
  installed :
      (lib : Library) (m : OwnedMeta) (d : Framework)
      (answer : Result FrameworkError Library × Framework)
      → m.meta ≡ e.1
      → core d ≡ core fw
      → answer ≡ (ok lib, install name lib m d)
      → Installed name e fw answer

module _ (name : Text) (e : Text × IndexedMeta) (fw : Framework) where
  Quiet-then :
      {A : Type 0} (f : A → Step Library) (d : Framework)
      (answer : Result FrameworkError A × Framework)
      → core d ≡ core fw
      → Quiet d answer
      → ((a : A) (d' : Framework) → core d' ≡ core fw → Installed name e fw (f a d'))
      → Installed name e fw (go_on f answer)
  Quiet-then f d (ok a, d') same q rest = rest a d' (q.same ∙ same)
  Quiet-then f d (err x, d') same q rest = failed x d' (λ p. q.ends (ap err p)) (q.same ∙ same)

  opened_library-Quiet : (o : Option Library) (d : Framework) → Quiet d (opened_library o d)
  unfolding opened_library
  opened_library-Quiet none d = record { same = refl; ends = λ q. cc }
  opened_library-Quiet (some lib) d = ok-Quiet lib d d refl

  pub load_library-Installed : (w : World) → Installed name e fw (load_library w name e fw)
  unfolding load_library to_heap_ffi
  load_library-Installed w =
      Quiet-then _ fw (opened_library (w.open_library e.0) fw) refl (opened_library-Quiet _ fw)
        (λ lib d1 s1.
          let m : OwnedMeta = record { ptr = d1.next_ptr; meta = e.1 } in
          let boxed : Framework = record d1 { next_ptr = suc d1.next_ptr } in
          let s2 : core boxed ≡ core fw = unfold core in s1 in
          Quiet-then _ boxed (run_init lib.around_init boxed) s2
            (run_init-Quiet lib.around_init boxed)
            (λ t d3 s3.
              let slotted = register_slots w lib name m.ptr lib.around_slots d3 in
              let s4 = register_slots-core w lib name m.ptr lib.around_slots d3 ∙ s3 in
              Quiet-then _ slotted
                (push_slots w lib m.ptr (slot_entries name slotted.slot_map) slotted) s4
                (push_slots-Quiet w lib m.ptr (slot_entries name slotted.slot_map) slotted)
                (λ t5 d5 s5. installed lib m d5 _ refl s5 refl)))
