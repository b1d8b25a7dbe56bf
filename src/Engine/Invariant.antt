-- ===== src/Engine/Invariant.antt =====
-- crates/around-engine/src/pipeline.rs: what holds of the engine's streams between any two calls.
use around.Base.{
  ℕ, ◌+◌, ◌<◌, ◌^◌, ◌%◌, ◌≡◌, refl, arith, none, some, List, [], ◌∷◌, Result, ok, err, ◌==◌,
  Result-cases, Option-cases, inl, inr, ◌⊎◌, Bool-cases,
}
use around.Base.Table.{
  Table, lookup, insert, update, update_all, remove, lookup-insert, lookup-update,
  lookup-update_all, lookup-remove,
}
use around.Core.Spec
use around.Core.Spec.{SampleSpec, f32}
use around.Core.Spec.Valid.{IsValid, new_interleaved-IsValid}
use around.Engine.Frame.{SameStream, decode_round-Frame, lost_round-Frame}
use around.Engine.State.{is_cancelled, Engine, ActiveStream, AroundError}
use around.Engine.Api.{
  SourceInfo, Opened, prepare, seek_found, seek_stream, stop_stream, pause_stream, resume_stream,
  shutdown, notify_device_lost, cancel_stream, queue_seek,
}
use around.Engine.Loop.{Loop, Round, round}
use around.Engine.Schedule.{Op, seek, stop, pause, resume, shut_down, lose_device, apply, apply_all}

-- A stream's entry: its key is its id, an id that has been given out, and its format is usable.
pub record IsEntry (next_id : ℕ) (key : ℕ) (s : ActiveStream) : Type 0 where
  pub keyed : s.id ≡ key
  pub given_out : key < next_id
  pub rate_pos : 0 < s.sample_rate
  pub format : IsValid s.source_format
  pub format_rate : s.source_format.sample_rate ≡ s.sample_rate
  pub format_channels : s.source_format.channels ≡ s.channels

abbrev pub AreEntries : ℕ → Table ActiveStream → Type 0
AreEntries next_id m = (k : ℕ) (s : ActiveStream) → lookup k m ≡ some s → IsEntry next_id k s

abbrev pub IsValidEngine : Engine → Type 0
IsValidEngine e = AreEntries e.next_stream_id e.streams

-- A change of the streams that leaves alone what `IsEntry` speaks of.
abbrev pub Keeps : (ActiveStream → ActiveStream) → Type 0
Keeps f = (n k : ℕ) (s : ActiveStream) → IsEntry n k s → IsEntry n k (f s)

pub update-AreEntries :
    (n id : ℕ) (f : ActiveStream → ActiveStream) (m : Table ActiveStream)
    → Keeps f
    → AreEntries n m
    → AreEntries n (update id f m)
update-AreEntries n id f m keeps h k s found = elim (Option-cases (lookup k m)) [
  | inl missing ↦ ground (arith, lookup-update k id f m)
  | inr (t, old) ↦ ground (arith, lookup-update k id f m, h k t old, keeps n k t (h k t old))
]

pub update_all-AreEntries :
    (n : ℕ) (f : ActiveStream → ActiveStream) (m : Table ActiveStream)
    → Keeps f
    → AreEntries n m
    → AreEntries n (update_all f m)
update_all-AreEntries n f m keeps h k s found = elim (Option-cases (lookup k m)) [
  | inl missing ↦ ground (arith, lookup-update_all k f m)
  | inr (t, old) ↦ ground (arith, lookup-update_all k f m, keeps n k t (h k t old))
]

pub remove-AreEntries :
    (n id : ℕ) (m : Table ActiveStream) → AreEntries n m → AreEntries n (remove id m)
remove-AreEntries n id m h k s found = h k s (ground (arith, lookup-remove k id m))

insert-AreEntries :
    (n id : ℕ) (t : ActiveStream) (m : Table ActiveStream)
    → IsEntry n id t
    → AreEntries n m
    → AreEntries n (insert id t m)
insert-AreEntries n id t m new h k s found = elim (Bool-cases (id == k)) [
  | inl same ↦ ground (arith, lookup-insert k id t m)
  | inr other ↦ h k s (ground (arith, lookup-insert k id t m))
]

later-AreEntries : (n : ℕ) (m : Table ActiveStream) → AreEntries n m → AreEntries (n + 1) m
later-AreEntries n m h k s found = ground (arith, h k s found)

-- `prepare` keeps the invariant, as long as the counter of stream ids does not wrap.
pub prepare-IsValidEngine :
    (source : SourceInfo) (opened : Result AroundError Opened) (e : Engine)
    → e.next_stream_id + 1 < 2 ^ 64
    → IsValidEngine e
    → IsValidEngine (prepare source opened e).1
unfolding prepare
prepare-IsValidEngine source (err x) e room h = h
prepare-IsValidEngine source (ok o) e room h = elim (Bool-cases (o.sample_rate == 0)) [
  | inl zero_rate ↦ rw zero_rate h
  | inr nonzero ↦
      rw nonzero (elim (Result-cases (Spec.new_interleaved o.sample_rate o.channels f32)) [
        | inr (x, refused) ↦ rw refused h
        | inl (format, made) ↦
            let v = new_interleaved-IsValid o.sample_rate o.channels f32 format made in
            let wraps_not : (e.next_stream_id + 1) % 2 ^ 64 ≡ e.next_stream_id + 1 = omega arith in
            rw (made, wraps_not)
              (insert-AreEntries (e.next_stream_id + 1) e.next_stream_id _ e.streams
                (ground (arith, v)) (later-AreEntries e.next_stream_id e.streams h))
      ])
]

seek_found-engine :
    (e : Engine) (id p : ℕ) (s : ActiveStream)
    → ((seek_found e id p s).1 ≡ e)
      ⊎ ((seek_found e id p s).1 ≡ record e { streams = update id (queue_seek p) e.streams })
unfolding seek_found
seek_found-engine e id p s = ground arith

-- A seek leaves the engine as it was, or queues the request.
pub seek_stream-engine :
    (id p : ℕ) (e : Engine)
    → ((seek_stream id p e).1 ≡ e)
      ⊎ ((seek_stream id p e).1 ≡ record e { streams = update id (queue_seek p) e.streams })
unfolding seek_stream
seek_stream-engine id p e = elim (Option-cases (lookup id e.streams)) [
  | inl missing ↦ rw (missing, seek_stream) (inl refl)
  | inr (s, found) ↦ rw (found, seek_stream) (seek_found-engine e id p s)
]

notify_device_lost-IsValidEngine :
    (e : Engine) → IsValidEngine e → IsValidEngine (notify_device_lost e)
unfolding notify_device_lost stop_stream
notify_device_lost-IsValidEngine e h = elim (Bool-cases e.output_auto_reconnect) [
  | inl reconnect ↦ rw reconnect h
  | inr stopping ↦
      rw stopping
        (update_all-AreEntries e.next_stream_id cancel_stream e.streams (λ n k s v. ground arith) h)
]

pub apply-IsValidEngine : (o : Op) (e : Engine) → IsValidEngine e → IsValidEngine (apply o e)
unfolding apply stop_stream pause_stream resume_stream shutdown
apply-IsValidEngine (seek id p) e h = elim (seek_stream-engine id p e) [
  | inl same ↦ rw same h
  | inr queued ↦
      rw queued (update-AreEntries e.next_stream_id id _ e.streams (λ n k s v. ground arith) h)
]
apply-IsValidEngine (stop none) e h =
    update_all-AreEntries e.next_stream_id cancel_stream e.streams (λ n k s v. ground arith) h
apply-IsValidEngine (stop (some id)) e h =
    update-AreEntries e.next_stream_id id cancel_stream e.streams (λ n k s v. ground arith) h
apply-IsValidEngine (pause id) e h =
    update-AreEntries e.next_stream_id id _ e.streams (λ n k s v. ground arith) h
apply-IsValidEngine (resume id) e h =
    update-AreEntries e.next_stream_id id _ e.streams (λ n k s v. ground arith) h
apply-IsValidEngine shut_down e h =
    update_all-AreEntries e.next_stream_id _ e.streams (λ n k s v. ground arith) h
apply-IsValidEngine lose_device e h = notify_device_lost-IsValidEngine e h

-- Every sequence of the other threads' calls keeps the invariant of the streams.
pub apply_all-IsValidEngine :
    (os : List Op) (e : Engine) → IsValidEngine e → IsValidEngine (apply_all os e)
unfolding apply_all
apply_all-IsValidEngine [] e h = h
apply_all-IsValidEngine (o ∷ os) e h =
    apply_all-IsValidEngine os (apply o e) (apply-IsValidEngine o e h)

-- The stream after a round's stages is the same entry.
pub replace-AreEntries :
    (n id : ℕ) (s t : ActiveStream) (m : Table ActiveStream)
    → lookup id m ≡ some s
    → SameStream s t
    → AreEntries n m
    → AreEntries n (update id (λ _. t) m)
replace-AreEntries n id s t m found same h k u there = elim (Bool-cases (id == k)) [
  | inl here ↦ ground (arith, lookup-update k id (λ _. t) m, h id s found)
  | inr other ↦ h k u (ground (arith, lookup-update k id (λ _. t) m))
]

-- Every round of the decode loop keeps the invariant of the streams, whatever the codec and the output
-- answer.
pub round-IsValidEngine :
    (r : Round) (e : Engine) (l : Loop) → IsValidEngine e → IsValidEngine (round r e l).0
unfolding round
round-IsValidEngine r e l h = elim (Option-cases (lookup l.id e.streams)) [
  | inl missing ↦ rw (missing, round) h
  | inr (s, found) ↦
      rw (found, round)
        (elim (Bool-cases (is_cancelled e s)) [
          | inl cancelled ↦ rw cancelled h
          | inr running ↦ rw running (elim (Bool-cases e.device_lost) [
            | inl lost ↦ rw lost (
                replace-AreEntries e.next_stream_id l.id s _ e.streams found
                  (lost_round-Frame e.output_auto_reconnect r s l).0 h)
            | inr bound ↦ rw bound (
                replace-AreEntries e.next_stream_id l.id s _ e.streams found
                  (decode_round-Frame e.output_auto_reconnect r s l).0 h)
          ])
        ])
]
