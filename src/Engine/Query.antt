-- ===== src/Engine/Query.antt =====
-- crates/around-engine/src/pipeline.rs: what `Engine` answers about its streams, and the operations on
-- the only active one. The order of a `HashMap` is that of the table.
use around.Base.{ℕ, Bool, true, false, Option, none, some, List, [], ◌∷◌, map}
use around.Base.Text.{Text}
use around.Base.Table.{Table, lookup, map_option}
use around.Core.Spec.{SampleSpec}
use around.Engine.State.{Engine, ActiveStream}
use around.Engine.Api.{pause_stream, resume_stream, sole_stream_id}

unfoldable pub stream_ids : Engine → List ℕ
stream_ids e = map (λ entry. entry.0) e.streams

unfoldable pub stream_source_path : Engine → ℕ → Option Text
stream_source_path e id = map_option (λ s. s.source_path) (lookup id e.streams)

unfoldable pub stream_codec_name : Engine → ℕ → Option Text
stream_codec_name e id = map_option (λ s. s.codec_name) (lookup id e.streams)

-- `Option::and_then`
abbrev pub and_then {ℓ κ} : {A : Type ℓ} {B : Type κ} → Option A → (A → Option B) → Option B
and_then none f = none
and_then (some a) f = f a

unfoldable pub stream_duration_ms : Engine → ℕ → Option ℕ
stream_duration_ms e id = and_then (lookup id e.streams) (λ s. s.duration_ms)

unfoldable pub stream_content_type : Engine → ℕ → Option Text
stream_content_type e id = and_then (lookup id e.streams) (λ s. s.content_type)

unfoldable pub stream_seekable : Engine → ℕ → Option Bool
stream_seekable e id = map_option (λ s. s.seekable) (lookup id e.streams)

unfoldable pub stream_output_spec : Engine → ℕ → Option SampleSpec
stream_output_spec e id = and_then (lookup id e.streams) (λ s. s.output_spec)

any_active : Table ActiveStream → Bool
any_active [] = false
any_active ((k, s) ∷ m) = elim s.state.active [ true ↦ true | false ↦ any_active m ]

unfoldable pub running : Engine → Bool
unfolding any_active
running e = any_active e.streams

-- `Engine::pause` and `Engine::resume`
unfoldable pub pause_sole : Engine → Engine
pause_sole e = elim (sole_stream_id e) [ none ↦ e | some id ↦ pause_stream id e ]

unfoldable pub resume_sole : Engine → Engine
resume_sole e = elim (sole_stream_id e) [ none ↦ e | some id ↦ resume_stream id e ]
