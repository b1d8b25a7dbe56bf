-- ===== src/Extensions/FrameworkTests.antt =====
-- Runs of crates/around-extensions/src/lib.rs, and its theorems at concrete inputs.
use around.Base.{
  Bool-cases, ℕ, ◌<◌, ◌==◌, Bool, true, false, if◌then◌else◌, Option, none, some, List, [], ◌∷◌,
  Result, ok, err, ◌≡◌, refl, arith, inl, inr,
}
use around.Base.Int.{pos}
use around.Base.Dict.{find, is_there}
use around.Extensions.Claims.{unclaimed}
use around.Extensions.Consistent.{IsConsistent}
use around.Base.Text.{Text, text_eq, compare_text}
use around.Extensions.State.{
  static, World, Framework, Library, IndexedMeta, new_framework, returned, contains,
}
use around.Extensions.Scan.{scan_entries, scan_readable, scan_paths, meta_of, scan}
use around.Extensions.Slots.{drain, drain_pending, attach_register}
use around.Extensions.Load.{load_extension}
use around.Extensions.Unload.{dependent_of, unload, is_loaded}
use around.Extensions.Reload.{commit_reload, PendingReload}
use around.Extensions.Known.{OnDisk}
use around.Extensions.Loading.{Done, Ready, IsLoaded}
use around.Extensions.LoadEnds.{load_extension-Done}
use around.Extensions.Drains.{Attached, attach_register-Attached}
use around.Extensions.Unloads.{Unloaded, unload-Unloaded}
use around.Extensions.Reach.{Reachable, at_start, next, scanned, attached, Reachable-IsConsistent}
use around.Extensions.Reloads.{ReloadedOne, commit_reload-Reloaded}

abbrev a : Text
a = b'a' ∷ []

abbrev b : Text
b = b'b' ∷ []

abbrev names : List Text
names = a ∷ b ∷ []

abbrev meta : Text → List Text → IndexedMeta
meta name deps = record {
  name = name;
  semver = [];
  api_version = 1;
  depends_on = deps;
  depends_on_slots = [];
  author = [];
  description = [];
}

-- `a` needs `b`. Both hand out one entry for the slot `S`.
abbrev library : Text → List Text → Library
library name deps = record {
  around_meta = some (meta name deps);
  around_init = some (returned (pos 0));
  around_slots = [];
  create = λ symbol. some (5 ∷ []);
  around_deinit = none;
}

abbrev open_one : Text → Option Library
open_one path =
    if text_eq path a
    then some (library a (b ∷ []))
    else if text_eq path b
    then some (library b [])
    else none

abbrev so : Text
so = b's' ∷ b'o' ∷ []

abbrev world : World
world = record {
  read_dir = λ path. some (
      some (record { path = a; extension = some so })
      ∷ some (record { path = b; extension = some so })
      ∷ []);
  open_library = open_one;
  push_panics = λ reg entry. false;
}

needs_of :
    (path : Text) (m : IndexedMeta) (dep : Text)
    → meta_of (open_one path) ≡ some m
    → contains dep m.depends_on ≡ true
    → contains dep names ≡ true
unfolding meta_of contains
needs_of path m dep found needs = elim (Bool-cases (text_eq path a)) [
  | inl is_a ↦ ground (arith, is_a, found, needs)
  | inr not_a ↦ elim (Bool-cases (text_eq path b)) [
    | inl is_b ↦ ground (arith, not_a, is_b, found, needs)
    | inr not_b ↦ ground (arith, not_a, not_b, found, needs)
  ]
]

disk : OnDisk world names
disk path m found dep needs = needs_of path m dep found needs

abbrev slot : Text
slot = b'S' ∷ []

-- A framework with one slot that has scanned a directory.
ready : Framework
ready = (scan world ([] ∷ []) (attach_register world slot 7 new_framework)).1

reachable : Reachable world names disk ready
unfolding ready
reachable =
    next (next at_start (attached slot 7 new_framework))
      (scanned ([] ∷ []) (attach_register world slot 7 new_framework))

ready-Ready : Ready names ready
ready-Ready = Reachable-IsConsistent world names disk reachable

Reachable-IsConsistent_example : Ready names ready
Reachable-IsConsistent_example = Reachable-IsConsistent world names disk reachable

nothing_claimed : unclaimed names ready.loading < 3
unfolding unclaimed ready scan scan_paths scan_readable scan_entries attach_register drain_pending
    drain new_framework contains
nothing_claimed = omega arith

known_name : contains a names ≡ true
unfolding contains compare_text
known_name = refl

load_extension-Done_example : Done names (IsLoaded names a) ready (load_extension world 3 a ready)
load_extension-Done_example =
    load_extension-Done world names disk 3 a ready ready-Ready (known_name) nothing_claimed

-- An entry waits for the slot, and one for another.
abbrev waiting_one : Framework
waiting_one = record new_framework {
  pending =
      record { slot_name = slot; entry = 3; ext_meta = 0 }
      ∷ record { slot_name = a; entry = 4; ext_meta = 0 }
      ∷ [];
}

attach_register-Attached_example :
    Attached world slot 7 waiting_one (attach_register world slot 7 waiting_one)
attach_register-Attached_example = attach_register-Attached world slot 7 waiting_one

-- Only `b` is loaded.
abbrev one_loaded : Framework
one_loaded = record new_framework {
  slot_map = (slot, static 7) ∷ [];
  loaded = (b, library b []) ∷ [];
  loaded_meta = (b, record { ptr = 0; meta = meta b [] }) ∷ [];
  registers = λ reg. record { entry = 5; ext_meta = 0 } ∷ [];
  next_ptr = 1;
}

one-IsConsistent : IsConsistent one_loaded.loaded one_loaded.loaded_meta
unfolding find is_there contains
one-IsConsistent = record {
  same_names = λ name. elim (Bool-cases (text_eq b name)) [
    | inl same ↦ rw same refl
    | inr other ↦ rw other refl
  ];
  closed = λ name dep m found needs. elim (Bool-cases (text_eq b name)) [
    | inl same ↦ ground (arith, same, found, needs)
    | inr other ↦ ground (arith, other, found, needs)
  ];
}

found_b : find b one_loaded.loaded_meta ≡ some (record { ptr = 0; meta = meta b [] })
unfolding find compare_text
found_b = refl

free_b : dependent_of b one_loaded.loaded_meta ≡ none
unfolding dependent_of compare_text
free_b = refl

unload-Unloaded_example :
    Unloaded b (record { ptr = 0; meta = meta b [] }) one_loaded (unload b one_loaded)
unload-Unloaded_example =
    unload-Unloaded b one_loaded (record { ptr = 0; meta = meta b [] }) one-IsConsistent (found_b)
      (free_b)

-- A new version of `b` that needs `a`, which is not loaded.
abbrev newer : PendingReload
newer = record {
  lib = library b (a ∷ []);
  meta = record { ptr = 1; meta = meta b (a ∷ []) };
  slot_defs = [];
  entries = [];
  depends_on = a ∷ [];
}

-- The reload succeeds all the same.
reload_ok : (commit_reload world 0 newer one_loaded).0 ≡ ok tt
unfolding commit_reload around.Extensions.Reload.name_of_ptr
    around.Extensions.Unload.check_dependents around.Extensions.Unload.no_dependents dependent_of
    compare_text around.Extensions.Reload.replace_extension around.Extensions.Unload.take_meta
    around.Base.Dict.find around.Extensions.Lifecycle.broadcast
    around.Extensions.Unload.take_library around.Extensions.Reload.push_reloaded
reload_ok = refl

commit_reload-Reloaded_example :
    ReloadedOne world 0 newer one_loaded one-IsConsistent (commit_reload world 0 newer one_loaded).1
commit_reload-Reloaded_example =
    commit_reload-Reloaded world 0 newer one_loaded one-IsConsistent (reload_ok)
