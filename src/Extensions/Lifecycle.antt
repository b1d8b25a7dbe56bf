-- ===== src/Extensions/Lifecycle.antt =====
-- crates/around-extensions/src/lifecycle.rs: hooks that hear of every load, unload and reload.
-- A closure's panic is caught by its trampoline, so every hook is called.
use around.Base.{ℕ, List, [], ◌∷◌, ◌++◌, map}
use around.Extensions.State.{Framework, LifecycleEvent, on_load, on_unload, on_reload, hook_called}

-- `LifecycleRegister::register`
unfoldable pub register_hook : ℕ → List ℕ → List ℕ
register_hook hook hooks = hooks ++ hook ∷ []

abbrev pub hooks_of : LifecycleEvent → Framework → List ℕ
hooks_of on_load fw = fw.load_hooks
hooks_of on_unload fw = fw.unload_hooks
hooks_of on_reload fw = fw.reload_hooks

-- `LifecycleRegister::broadcast` of the register for the event.
unfoldable pub broadcast : LifecycleEvent → ℕ → Framework → Framework
broadcast event meta fw = record fw {
  events = fw.events ++ map (λ hook. hook_called hook event meta) (hooks_of event fw);
}
