-- ===== src/Engine/Calls.antt =====
-- crates/around-engine/src/pipeline.rs: what other threads' calls leave of a stream whose loop runs.
use around.Base.{
  ℕ, Bool, true, false, ◌≡◌, refl, ◌∙◌, arith, none, some, List, [], ◌∷◌, ◌++◌, ◌==◌, if◌then◌else◌,
  inl, inr, Bool-cases,
}
use around.Base.Table.{lookup, update, update_all, lookup-update, lookup-update_all}
use around.Engine.State.{Engine, ActiveStream, is_cancelled, drop_stream}
use around.Engine.Api.{
  stop_stream, pause_stream, resume_stream, shutdown, notify_device_lost, queue_seek, cancel_stream,
}
use around.Engine.Schedule.{Op, seek, stop, pause, resume, shut_down, lose_device, apply, apply_all}
use around.Engine.Invariant.{seek_stream-engine}

pub record Survives (id : ℕ) (s : ActiveStream) (e e' : Engine) : Type 0 where
  pub stream : ActiveStream
  pub there : lookup id e'.streams ≡ some stream
  pub same_position : stream.state.position_ms ≡ s.state.position_ms
  pub stays_cancelled : is_cancelled e s ≡ true → is_cancelled e' stream ≡ true
  pub same_releases : e'.releases ≡ e.releases
  pub same_handles : drop_stream (some stream) ≡ drop_stream (some s)

either :
    {id : ℕ} {s : ActiveStream} {e : Engine} (b : Bool) {x y : Engine}
    → Survives id s e x
    → Survives id s e y
    → Survives id s e (if b then x else y)
either true p q = p
either false p q = q

module _ (id : ℕ) (s : ActiveStream) (e : Engine) (found : lookup id e.streams ≡ some s) where
  updated :
      (k : ℕ) (f : ActiveStream → ActiveStream)
      → ((t : ActiveStream)
          → ((f t).state.position_ms ≡ t.state.position_ms)
            × (t.cancelled ≡ true → (f t).cancelled ≡ true)
            × (drop_stream (some (f t)) ≡ drop_stream (some t)))
      → Survives id s e (record e { streams = update k f e.streams })
  updated k f keeps = elim (Bool-cases (k == id)) [
    | inl same ↦ record {
      stream = f s;
      there = ground (arith, lookup-update id k f e.streams);
      same_position = (keeps s).0;
      same_handles = (keeps s).2;
      stays_cancelled = λ c. ground (arith, (keeps s).1);
      same_releases = refl;
    }
    | inr other ↦ record {
      stream = s;
      there = ground (arith, lookup-update id k f e.streams);
      same_position = refl;
      same_handles = refl;
      stays_cancelled = λ c. c;
      same_releases = refl;
    }
  ]

  updated_all :
      (f : ActiveStream → ActiveStream) (b d : Bool)
      → (e.shutdown ≡ true → b ≡ true)
      → ((t : ActiveStream)
          → ((f t).state.position_ms ≡ t.state.position_ms)
            × (t.cancelled ≡ true → (f t).cancelled ≡ true)
            × (drop_stream (some (f t)) ≡ drop_stream (some t)))
      → Survives id s e
          (record e { shutdown = b; device_lost = d; streams = update_all f e.streams })
  updated_all f b d stays keeps = record {
    stream = f s;
    there = ground (arith, lookup-update_all id f e.streams);
    same_position = (keeps s).0;
    same_handles = (keeps s).2;
    stays_cancelled = λ c. ground (arith, (keeps s).1);
    same_releases = refl;
  }

  unchanged : (b : Bool) → Survives id s e (record e { device_lost = b })
  unchanged b = record {
    stream = s;
    there = found;
    same_position = refl;
    same_handles = refl;
    stays_cancelled = λ c. c;
    same_releases = refl;
  }

  pub apply-Survives : (o : Op) → Survives id s e (apply o e)
  unfolding drop_stream apply stop_stream pause_stream resume_stream shutdown notify_device_lost
  apply-Survives (seek k p) = elim (seek_stream-engine k p e) [
    | inl same ↦ rw same (unchanged e.device_lost)
    | inr queued ↦ rw queued (updated k (queue_seek p) (λ t. (refl, λ c. c, refl)))
  ]
  apply-Survives (stop none) =
      updated_all cancel_stream e.shutdown e.device_lost (λ h. h) (λ t. (refl, λ c. refl, refl))
  apply-Survives (stop (some k)) = updated k cancel_stream (λ t. (refl, λ c. refl, refl))
  apply-Survives (pause k) = updated k _ (λ t. (refl, λ c. c, refl))
  apply-Survives (resume k) = updated k _ (λ t. (refl, λ c. c, refl))
  apply-Survives shut_down =
      updated_all _ true e.device_lost (λ h. refl) (λ t. (refl, λ c. refl, refl))
  apply-Survives lose_device =
      either e.output_auto_reconnect (unchanged true)
        (updated_all cancel_stream e.shutdown true (λ h. h) (λ t. (refl, λ c. refl, refl)))

pub apply_all-Survives :
    (os : List Op) (id : ℕ) (s : ActiveStream) (e : Engine)
    → lookup id e.streams ≡ some s
    → Survives id s e (apply_all os e)
unfolding apply_all
apply_all-Survives [] id s e found = record {
  stream = s;
  there = found;
  same_position = refl;
  same_handles = refl;
  stays_cancelled = λ c. c;
  same_releases = refl;
}
apply_all-Survives (o ∷ os) id s e found =
    let a = apply-Survives id s e found o in
    let b = apply_all-Survives os id a.stream (apply o e) a.there in
    record {
      stream = b.stream;
      there = b.there;
      same_position = b.same_position ∙ a.same_position;
      same_handles = b.same_handles ∙ a.same_handles;
      stays_cancelled = λ c. b.stays_cancelled (a.stays_cancelled c);
      same_releases = b.same_releases ∙ a.same_releases;
    }

pub apply_all-++ :
    (os ps : List Op) (e : Engine) → apply_all (os ++ ps) e ≡ apply_all ps (apply_all os e)
unfolding apply_all
apply_all-++ [] ps e = refl
apply_all-++ (o ∷ os) ps e = apply_all-++ os ps (apply o e)

-- A stream in the map whose loop must leave.
pub record Stopped (id : ℕ) (e : Engine) : Type 0 where
  pub stream : ActiveStream
  pub there : lookup id e.streams ≡ some stream
  pub cancelled : is_cancelled e stream ≡ true

stop-Stopped :
    (id : ℕ) (s : ActiveStream) (e : Engine)
    → lookup id e.streams ≡ some s
    → Stopped id (apply (stop (some id)) e)
unfolding apply stop_stream
stop-Stopped id s e found = record {
  stream = cancel_stream s;
  there = ground (arith, lookup-update id id cancel_stream e.streams);
  cancelled = refl;
}

-- A stopped stream is cancelled when the next round begins, whatever is called before and after.
pub stop_cancels :
    (before after : List Op) (id : ℕ) (s : ActiveStream) (e : Engine)
    → lookup id e.streams ≡ some s
    → Stopped id (apply_all (before ++ stop (some id) ∷ after) e)
unfolding apply_all
stop_cancels before after id s e found =
    let a = apply_all-Survives before id s e found in
    let b = stop-Stopped id a.stream (apply_all before e) a.there in
    let c = apply_all-Survives after id b.stream _ b.there in
    rw (apply_all-++ before (stop (some id) ∷ after) e)
      (record { stream = c.stream; there = c.there; cancelled = c.stays_cancelled b.cancelled })
