-- ===== src/Extensions/State.antt =====
-- crates/around-extensions/src/lib.rs: the state of `Framework`, and the world that it works on.
-- A raw pointer is a number. A `*const ExtensionMeta` is the number of the box that holds the metadata,
-- and boxes are numbered as they are made. What the registers hold stands in the framework too.
use around.Base.{ℕ, Bool, false, ◌||◌, if◌then◌else◌, Option, List, [], ◌∷◌}
use around.Base.Int.{ℤ}
use around.Base.Text.{Text, text_eq}
use around.Base.Dict.{Dict}
use around.Extensions.Trust.{TrustCounter}

pub record IndexedMeta : Type 0 where
  pub name : Text
  pub semver : Text
  pub api_version : ℕ
  pub depends_on : List Text
  pub depends_on_slots : List Text
  pub author : Text
  pub description : Text

-- `OwnedFFIMeta` with the address of its `meta`.
pub record OwnedMeta : Type 0 where
  pub ptr : ℕ
  pub meta : IndexedMeta

-- How a guarded call of an extension's function ends.
pub data Outcome : Type 0 where
  crashed : Outcome
  returned : ℤ → Outcome

-- `SlotDef`; its pointers are not null.
pub record SlotDef : Type 0 where
  pub slot_name : Text
  pub reg_instance : ℕ

-- What a shared library exports. `create` is what the exported function of that name hands out, in
-- order, before its first null; `none` where there is no such symbol.
pub record Library : Type 0 where
  pub around_meta : Option IndexedMeta
  pub around_init : Option Outcome
  pub around_slots : List SlotDef
  pub create : Text → Option (List ℕ)
  pub around_deinit : Option Outcome

-- A directory's entry: `extension` is that of its path.
pub record DirEntry : Type 0 where
  pub path : Text
  pub extension : Option Text

-- The file system, the dynamic linker, and whether a register's `push_raw` panics on an entry.
pub record World : Type 0 where
  pub read_dir : Text → Option (List (Option DirEntry))
  pub open_library : Text → Option Library
  pub push_panics : (reg entry : ℕ) → Bool

pub data SlotStorage : Type 0 where
  static : ℕ → SlotStorage
  owned : ℕ → Text → SlotStorage

-- The register of a slot.
abbrev pub reg_of : SlotStorage → ℕ
reg_of (static reg) = reg
reg_of (owned reg owner) = reg

pub record PendingEntry : Type 0 where
  pub slot_name : Text
  pub entry : ℕ
  pub ext_meta : ℕ

-- An entry of a register, with the metadata of the extension that it comes from.
pub record RegEntry : Type 0 where
  pub entry : ℕ
  pub ext_meta : ℕ

pub data LifecycleEvent : Type 0 where
  on_load on_unload on_reload : LifecycleEvent

-- What happens outside the framework, in order.
pub data Event : Type 0 where
  hook_called : (hook : ℕ) → LifecycleEvent → (ext_meta : ℕ) → Event
  deinit_called : Text → Event

-- The variants of `FrameworkError` that the operations return, without the texts that they carry;
-- `out_of_fuel` is the model's own.
pub data FrameworkError : Type 0 where
  io load init crashed_call out_of_fuel : FrameworkError
  not_found dependents_remain slot_not_registered : Text → FrameworkError
  api_version_mismatch : (expected got : ℕ) → FrameworkError

pub record Framework : Type 0 where
  pub slot_map : Dict SlotStorage
  pub index : Dict (Text × IndexedMeta)
  pub loaded : Dict Library
  pub loaded_meta : Dict OwnedMeta
  pub loading : List Text
  -- The hooks of the three registers of `lifecycle.rs`.
  pub load_hooks : List ℕ
  pub unload_hooks : List ℕ
  pub reload_hooks : List ℕ
  pub loaded_trust : Dict TrustCounter
  pub slot_trust : Dict TrustCounter
  pub pending : List PendingEntry
  pub search_paths : List Text
  pub registers : ℕ → List RegEntry
  pub next_ptr : ℕ
  pub events : List Event

-- `Framework::instance`
unfoldable pub new_framework : Framework
new_framework = record {
  slot_map = [];
  index = [];
  loaded = [];
  loaded_meta = [];
  loading = [];
  load_hooks = [];
  unload_hooks = [];
  reload_hooks = [];
  loaded_trust = [];
  slot_trust = [];
  pending = [];
  search_paths = [];
  registers = λ reg. [];
  next_ptr = 0;
  events = [];
}

-- `HashSet::contains`
unfoldable pub contains : Text → List Text → Bool
contains name [] = false
contains name (other ∷ names) = text_eq other name || contains name names

-- `HashSet::remove`
unfoldable pub without : Text → List Text → List Text
without name [] = []
without name (other ∷ names) =
    if text_eq other name then without name names else other ∷ without name names

-- `CURRENT_API_VERSION`
abbrev pub current_api_version : ℕ
current_api_version = 1
