-- ===== src/Engine/Prepare.antt =====
-- crates/around-engine/src/pipeline.rs: what `Engine::prepare` registers and what it gives back.
use around.Base.{
  ℕ, ◌≤◌, ◌<◌, true, ◌≡◌, ◌≢◌, ◌↔◌, refl, arith, none, some, [], ◌∷◌, ◌++◌, ok, err, ◌==◌,
  Option-cases, inl, inr, Bool-cases, Result-cases,
}
use around.Base.Table.{lookup, lookup-insert}
use around.Core.Spec
use around.Core.Spec.{SampleSpec, f32}
use around.Engine.State.{
  Engine, ActiveStream, AroundError, decode_error, buffering, codec_drop, reader_drop,
}
use around.Engine.Api.{SourceInfo, Opened, PreparedStream, prepare, prepared_stream}
use around.Engine.Invariant.{IsValidEngine, IsEntry}

-- A new stream's id is not in use.
next_id_fresh : (e : Engine) → IsValidEngine e → lookup e.next_stream_id e.streams ≡ none
next_id_fresh e h = elim (Option-cases (lookup e.next_stream_id e.streams)) [
  | inl missing ↦ missing
  | inr (s, found) ↦ absurd (omega (arith, IsEntry.given_out (h e.next_stream_id s found)))
]

-- What a successful `prepare` has done.
pub record Registered (e : Engine) (o : Opened) (p : PreparedStream) (e' : Engine) : Type 0 where
  pub fresh : lookup p.stream_id e.streams ≡ none
  pub stream : ActiveStream
  pub there : lookup p.stream_id e'.streams ≡ some stream
  pub starts : stream.state.status ≡ buffering
  pub active : stream.state.active ≡ true
  pub owns_codec : (stream.stream_ptr ≡ some o.stream_ptr) × (stream.codec_ref ≡ some o.codec_ref)
  pub owns_reader : stream.reader_ctx ≡ some o.reader_ctx
  pub others : (k : ℕ) → k ≢ p.stream_id → lookup k e'.streams ≡ lookup k e.streams
  pub keeps_open : e'.releases ≡ e.releases

module _ (source : SourceInfo) (o : Opened) (e : Engine) where
  -- Where `prepare` succeeds on a valid engine, the stream has an id that was free, starts buffering, is
  -- active and owns the codec's handles; the other streams stay and nothing is given back.
  pub prepare-Registered :
      (p : PreparedStream)
      → IsValidEngine e
      → (prepare source (ok o) e).0 ≡ ok p
      → Registered e o p (prepare source (ok o) e).1
  unfolding prepare
  prepare-Registered p h made = elim (Bool-cases (o.sample_rate == 0)) [
    | inl zero_rate ↦ ground arith
    | inr nonzero ↦ elim (Result-cases (Spec.new_interleaved o.sample_rate o.channels f32)) [
      | inr (x, refused) ↦ ground arith
      | inl (format, ok_format) ↦
          let id : p.stream_id ≡ e.next_stream_id = ground arith in
          rw (nonzero, prepare)
            (rw (ok_format) (record {
              fresh = rw id (next_id_fresh e h);
              stream = prepared_stream source o format e.next_stream_id;
              there = ground (
                arith,
                lookup-insert p.stream_id e.next_stream_id
                    (prepared_stream source o format e.next_stream_id) e.streams,
              );
              starts = refl;
              active = refl;
              owns_codec = (refl, refl);
              owns_reader = refl;
              others = λ k other. ground (
                arith,
                lookup-insert k e.next_stream_id (prepared_stream source o format e.next_stream_id)
                    e.streams,
              );
              keeps_open = refl;
            }))
    ]
  ]

  -- A refused source leaves the streams alone, and the codec's stream is dropped before its reader.
  pub prepare_refused :
      (x : AroundError)
      → (prepare source (ok o) e).0 ≡ err x
      → (x ≡ decode_error)
        × ((prepare source (ok o) e).1.streams ≡ e.streams)
        × ((prepare source (ok o) e).1.next_stream_id ≡ e.next_stream_id)
        × ((prepare source (ok o) e).1.releases
            ≡ e.releases ++ (codec_drop o.codec_ref o.stream_ptr ∷ reader_drop o.reader_ctx ∷ []))
  unfolding prepare
  prepare_refused x made = ground arith

  -- A source is refused exactly for the rate 0 and for channel counts outside 1..=32.
  pub prepare_accepts :
      ((p : PreparedStream) × ((prepare source (ok o) e).0 ≡ ok p))
      ↔ ((0 < o.sample_rate) × (0 < o.channels) × (o.channels ≤ 32))
  unfolding prepare Spec.new_interleaved
  prepare_accepts = (
    λ h. ground (arith, h.1),
    λ v. elim (Result-cases (prepare source (ok o) e).0) [
      | inl accepted ↦ accepted
      | inr (x, refused) ↦ ground arith
    ],
  )
