-- ===== src/Ipc/Listing.antt =====
-- crates/around-engine/src/ipc/handlers.rs: what `Status` and the commands without an id tell.
use mathlib.Core.List.{Memᴰ}
use around.Base.{ℕ, ◌≡◌, refl, ap, ◌∙◌, arith, inl, inr, Bool-cases, some, List, [], ◌∷◌, map, ◌==◌}
use around.Base.Table.{Table, lookup}
use around.Engine.State.{Engine, ActiveStream, StreamState}
use around.Engine.Api.{stream_state}
use around.Engine.Query.{
  stream_ids, stream_source_path, stream_codec_name, stream_duration_ms, stream_content_type,
  stream_seekable, stream_output_spec,
}
use around.Ipc.Types
use around.Ipc.Types.{StreamStatus, IpcResponse}
use around.Ipc.Status.{unwrap_or, status_entry, status_entries, one_status, track_of, handle_status}

key_found {ℓ} :
    {V : Type ℓ} (m : Table V) (k : ℕ)
    → Memᴰ k (map (λ entry. entry.0) m)
    → (v : V) × (lookup k m ≡ some v)
unfolding lookup
key_found [] k h = elim h [ ]
key_found ((j, v) ∷ m) k (Memᴰ.head same) = rw same (v, ground arith)
key_found ((j, v) ∷ m) k (Memᴰ.tail h) = elim (Bool-cases (j == k)) [
  | inl same ↦ rw same (v, refl)
  | inr other ↦ rw other (key_found m k h)
]

state_found :
    (e : Engine) (id : ℕ) (s : ActiveStream)
    → lookup id e.streams ≡ some s
    → stream_state e id ≡ some s.state
unfolding stream_state
state_found e id s found = rw found refl

listed_one :
    (e : Engine) (id : ℕ) (ids : List ℕ) (st : StreamState)
    → stream_state e id ≡ some st
    → status_entries e (id ∷ ids) ≡ status_entry e id st ∷ status_entries e ids
unfolding status_entries
listed_one e id ids st found = rw (found, status_entries) refl

listed :
    (e : Engine) (ids : List ℕ)
    → ((id : ℕ) → Memᴰ id ids → (s : ActiveStream) × (lookup id e.streams ≡ some s))
    → map (λ entry. entry.stream_id) (status_entries e ids) ≡ ids
unfolding status_entries status_entry
listed e [] known = refl
listed e (id ∷ ids) known =
    let (s, found) = known id (Memᴰ.head refl) in
    let rest = listed e ids (λ k m. known k (Memᴰ.tail m)) in
    ap (λ xs. map (λ entry. entry.stream_id) xs)
      (listed_one e id ids s.state (state_found e id s found))
    ∙ ap (λ xs. id ∷ xs) rest

-- `Status` without an id lists every stream of the engine once, in the map's order.
pub status_entries_all :
    (e : Engine) → map (λ entry. entry.stream_id) (status_entries e (stream_ids e)) ≡ stream_ids e
unfolding stream_ids
status_entries_all e = listed e (stream_ids e) (key_found e.streams)

-- What the answer to `Status` tells of a stream.
pub record Describes (id : ℕ) (s : ActiveStream) (resp : IpcResponse) : Type 0 where
  pub fine : resp.status ≡ Types.ok
  pub state : resp.state ≡ some s.state.status
  pub position_ms : resp.position_ms ≡ some s.state.position_ms
  pub stream_id : resp.stream_id ≡ some id
  pub device_lost : resp.device_lost ≡ some s.state.device_lost
  pub seekable : resp.seekable ≡ some s.seekable
  pub content_type : resp.content_type ≡ s.content_type
  pub output_spec : resp.output_spec ≡ s.output_spec
  pub track :
      resp.track
      ≡ some (record {
        id = id;
        path = s.source_path;
        format = s.codec_name;
        duration_ms = unwrap_or 0 s.duration_ms;
      })

-- The answer to `Status` with the id of a stream that the engine holds describes that stream.
pub handle_status-Describes :
    (id : ℕ) (e : Engine) (s : ActiveStream)
    → lookup id e.streams ≡ some s
    → Describes id s (handle_status (some id) e)
unfolding handle_status one_status track_of stream_source_path stream_codec_name stream_duration_ms
    stream_content_type stream_seekable stream_output_spec
handle_status-Describes id e s found =
    rw (state_found e id s found, handle_status)
      (record {
        fine = refl;
        state = refl;
        position_ms = refl;
        stream_id = refl;
        device_lost = refl;
        seekable = rw found refl;
        content_type = rw found refl;
        output_spec = rw found refl;
        track = rw found refl;
      })
