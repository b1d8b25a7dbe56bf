-- ===== src/Engine/Frame.antt =====
-- crates/around-engine/src/pipeline.rs: what a round of the decode loop leaves alone.
use around.Base.{ℕ, Bool, true, false, ◌≡◌, arith, List, [], ◌∷◌}
use around.Base.Int.{ℤ}
use around.Engine.State.{ActiveStream}
use around.Engine.Loop.{
  Loop, Round, Verdict, apply_seek, drain_seeks, submit_block, read_block, decode_round, lost_round,
  ms_to_frames, set_device_lost,
}

-- All of a stream but its state, its seek requests and its resources.
pub record SameStream (s t : ActiveStream) : Type 0 where
  pub same_id : t.id ≡ s.id
  pub same_cancelled : t.cancelled ≡ s.cancelled
  pub same_rate : t.sample_rate ≡ s.sample_rate
  pub same_channels : t.channels ≡ s.channels
  pub same_format : t.source_format ≡ s.source_format
  pub same_active : t.state.active ≡ s.state.active

-- The resources of a stream.
pub record SameHandles (s t : ActiveStream) : Type 0 where
  pub same_ptr : t.stream_ptr ≡ s.stream_ptr
  pub same_codec : t.codec_ref ≡ s.codec_ref
  pub same_reader : t.reader_ctx ≡ s.reader_ctx

-- All of a loop but its counters.
pub record SameLoop (l k : Loop) : Type 0 where
  pub same_id : k.id ≡ l.id
  pub same_ptr : k.stream_ptr ≡ l.stream_ptr
  pub same_codec : k.codec_ref ≡ l.codec_ref
  pub same_reader : k.reader_ctx ≡ l.reader_ctx
  pub same_rate : k.sample_rate ≡ l.sample_rate
  pub same_channels : k.channels ≡ l.channels

abbrev pub Frame : ActiveStream → Loop → ActiveStream × Loop → Type 0
Frame s l r = SameStream s r.0 × SameLoop l r.1 × SameHandles s r.0

apply_seek-Frame : (p : ℤ) (s : ActiveStream) (l : Loop) → Frame s l (apply_seek p s l)
unfolding apply_seek
apply_seek-Frame p s l = ground arith

trans :
    (s t u : ActiveStream) (l m n : Loop) → Frame s l (t, m) → Frame t m (u, n) → Frame s l (u, n)
trans s t u l m n a b = ground arith

pub drain_seeks-Frame :
    (codec_seek : ℕ → ℤ) (seeks : List ℕ) (s : ActiveStream) (l : Loop)
    → Frame s l (drain_seeks codec_seek seeks s l)
unfolding drain_seeks
drain_seeks-Frame codec_seek [] s l = ground arith
drain_seeks-Frame codec_seek (p ∷ seeks) s l =
    let next = apply_seek (codec_seek (ms_to_frames p l.sample_rate)) s l in
    trans s next.0 _ l next.1 _ (apply_seek-Frame (codec_seek (ms_to_frames p l.sample_rate)) s l)
      (drain_seeks-Frame codec_seek seeks next.0 next.1)

abbrev pub RoundFrame : ActiveStream → Loop → ActiveStream × Loop × Verdict → Type 0
RoundFrame s l r = SameStream s r.0 × SameLoop l r.1 × SameHandles s r.0

submit_block-Frame :
    (reconnect : Bool) (r : Round) (frames : ℕ) (s : ActiveStream) (l : Loop)
    → RoundFrame s l (submit_block reconnect r frames s l)
unfolding submit_block
submit_block-Frame reconnect r frames s l = ground arith

read_block-Frame :
    (reconnect : Bool) (r : Round) (n : ℤ) (s : ActiveStream) (l : Loop)
    → RoundFrame s l (read_block reconnect r n s l)
unfolding read_block
read_block-Frame reconnect r n s l = ground arith

pub decode_round-Frame :
    (reconnect : Bool) (r : Round) (s : ActiveStream) (l : Loop)
    → RoundFrame s l (decode_round reconnect r s l)
unfolding decode_round
decode_round-Frame reconnect r s l =
    let drained = drain_seeks r.codec_seek s.seeks (record s { seeks = [] }) l in
    ground (
      arith,
      drain_seeks-Frame r.codec_seek s.seeks (record s { seeks = [] }) l,
      read_block-Frame reconnect r r.read drained.0 drained.1,
      read_block-Frame reconnect r r.read s l,
    )

pub lost_round-Frame :
    (reconnect : Bool) (r : Round) (s : ActiveStream) (l : Loop)
    → RoundFrame s l (lost_round reconnect r s l)
unfolding lost_round
lost_round-Frame reconnect r s l =
    ground
      (arith, decode_round-Frame reconnect r (set_device_lost false (set_device_lost true s)) l)
