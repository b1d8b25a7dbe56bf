-- ===== src/Engine/Take.antt =====
-- crates/around-engine/src/pipeline.rs: how a loop comes by its stream's resources.
use around.Base.{ℕ, ◌≡◌, refl, sym, ap, ◌∙◌, arith, none, some, Option-cases, inl, inr, ok, err}
use around.Base.Table.{lookup, update, lookup-update}
use around.Engine.State.{Engine, ActiveStream, internal}
use around.Engine.Loop.{Loop, take_stream_resources, take_resources}
use around.Engine.Loop.{take_codec, take_reader}

take_resources-gone :
    (id : ℕ) (s : ActiveStream) (l : Loop)
    → (take_resources id s).0 ≡ ok l
    → (take_resources id s).1.stream_ptr ≡ none
unfolding take_resources take_codec take_reader
take_resources-gone id s l h = ground arith

refused_again :
    (id : ℕ) (s : ActiveStream) → s.stream_ptr ≡ none → (take_resources id s).0 ≡ err internal
unfolding take_resources
refused_again id s gone = ground arith

pub take_missing :
    (id : ℕ) (e : Engine)
    → lookup id e.streams ≡ none
    → take_stream_resources id e ≡ (err internal, e)
unfolding take_stream_resources
take_missing id e missing = rw (missing, take_stream_resources) refl

pub take_found :
    (id : ℕ) (e : Engine) (s : ActiveStream)
    → lookup id e.streams ≡ some s
    → take_stream_resources id e ≡ (
      (take_resources id s).0,
      record e { streams = update id (λ _. (take_resources id s).1) e.streams },
    )
unfolding take_stream_resources
take_found id e s found = rw (found, take_stream_resources) refl

none_left :
    (id : ℕ) (e : Engine) (s : ActiveStream)
    → lookup id e.streams ≡ some s
    → s.stream_ptr ≡ none
    → (take_stream_resources id e).0 ≡ err internal
none_left id e s found gone = ap (λ r. r.0) (take_found id e s found) ∙ refused_again id s gone

-- Once a stream's resources have been taken, taking them again is an error: its loop cannot be started a
-- second time.
pub take_stream_resources-once :
    (id : ℕ) (e : Engine) (l : Loop)
    → (take_stream_resources id e).0 ≡ ok l
    → (take_stream_resources id (take_stream_resources id e).1).0 ≡ err internal
take_stream_resources-once id e l h = elim (Option-cases (lookup id e.streams)) [
  | inl missing ↦ rw (take_missing id e missing) (ap (λ r. r.0) (take_missing id e missing))
  | inr (s, found) ↦ rw (take_found id e s found) (
      none_left id _ (take_resources id s).1
        (ground (arith, lookup-update id id (λ _. (take_resources id s).1) e.streams))
        (take_resources-gone id s l (ap (λ r. r.0) (sym (take_found id e s found)) ∙ h)))
]
