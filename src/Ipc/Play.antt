-- ===== src/Ipc/Play.antt =====
-- crates/around-engine/src/ipc/handlers.rs: `Play`, and the commands that name no stream.
use mathlib.Core.List.{Memᴰ}
use around.Base.{
  ℕ, true, ◌≡◌, refl, sym, ◌∙◌, inl, inr, Bool-cases, none, some, List, [], ◌∷◌, ◌++◌, ◌==◌,
  some_inj, ok, ok_or-eq-ok,
}
use around.Base.Text.{Text}
use around.Base.Table.{Table, lookup}
use around.Engine.State.{Engine, ActiveStream}
use around.Engine.Api.{Opened, PreparedStream, prepare, sole, active_ids, sole_stream_id}
use around.Engine.Invariant.{IsValidEngine, IsEntry}
use around.Engine.Prepare.{Registered, prepare-Registered}
use around.Ipc.Types
use around.Ipc.Types.{IpcResponse}
use around.Ipc.Codecs.{World}
use around.Ipc.Handlers.{Server, resolve_stream_id, handle_play}

-- What an accepted `Play` leaves.
pub record Played (path : Text) (o : Opened) (p : PreparedStream) (v : Server)
    (result : IpcResponse × Server) : Type 0 where
  pub fine : result.0.status ≡ Types.ok
  pub answered : result.0.stream_id ≡ some p.stream_id
  pub seekable : result.0.seekable ≡ some p.seekable
  pub spawned : result.1.spawned ≡ v.spawned ++ (p.stream_id ∷ [])
  pub registered : Registered v.engine o p result.1.engine

-- On a valid engine, a file that exists and whose codec opens and is prepared is answered with the id of
-- a new stream, which is registered and whose loop is spawned once.
pub handle_play-Played :
    (w : World) (path : Text) (o : Opened) (p : PreparedStream) (v : Server)
    → IsValidEngine v.engine
    → w.exists path ≡ true
    → w.open_codec path ≡ ok o
    → (prepare (w.source path) (ok o) v.engine).0 ≡ ok p
    → Played path o p v (handle_play w path v)
unfolding handle_play
handle_play-Played w path o p v valid there opens prepared =
    rw (there, handle_play)
      (rw opens (
        rw prepared (record {
          fine = refl;
          answered = refl;
          seekable = refl;
          spawned = refl;
          registered = rw opens (prepare-Registered (w.source path) o v.engine p valid prepared);
        })))

active_listed :
    (m : Table ActiveStream) (k : ℕ) (s : ActiveStream)
    → lookup k m ≡ some s
    → s.state.active ≡ true
    → Memᴰ s.id (active_ids m)
unfolding lookup active_ids
active_listed [] k s found active = cc
active_listed ((j, t) ∷ m) k s found active = elim (Bool-cases (j == k)) [
  | inl same ↦
      let here : t ≡ s = some_inj _ _ (rw same at found) in rw here (rw active (Memᴰ.head refl))
  | inr other ↦
      let later = active_listed m k s (rw other at found) active in
      elim (Bool-cases t.state.active) [
        | inl runs ↦ rw runs (Memᴰ.tail later)
        | inr rests ↦ rw rests later
      ]
]

sole_only : (ids : List ℕ) (id x : ℕ) → sole ids ≡ some id → Memᴰ x ids → x ≡ id
sole_only [] id x h m = cc
sole_only (y ∷ []) id x h (Memᴰ.head same) = same ∙ some_inj _ _ h
sole_only (y ∷ []) id x h (Memᴰ.tail m) = elim m [ ]
sole_only (y ∷ z ∷ ids) id x h m = cc

-- In a valid engine, where a command that names no stream is resolved to an id, an active stream of the
-- engine has that id.
pub resolve_stream_id_sole :
    (e : Engine) (id k : ℕ) (s : ActiveStream)
    → IsValidEngine e
    → resolve_stream_id e none ≡ ok id
    → lookup k e.streams ≡ some s
    → s.state.active ≡ true
    → k ≡ id
unfolding resolve_stream_id sole_stream_id
resolve_stream_id_sole e id k s valid resolved found active =
    sym (IsEntry.keyed (valid k s found))
    ∙ sole_only (active_ids e.streams) id s.id
        (ok_or-eq-ok (sole (active_ids e.streams)) _ resolved)
        (active_listed e.streams k s found active)
