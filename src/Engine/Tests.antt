-- ===== src/Engine/Tests.antt =====
-- Runs of crates/around-engine/src/pipeline.rs with one stream.
use around.Base.{
  ◌+◌, ◌<◌, ◌^◌, ℕ, suc, ◌+◌, ◌≤◌, ◌<◌, Bool, true, false, ◌≡◌, ◌≢◌, ◌↔◌, ◌⊎◌, inl, inr, refl,
  arith, Result, ok, err, List, [], ◌∷◌, ◌++◌, Option, none, some,
}
use around.Base.Int.{pos, negsuc}
use around.Base.Table.{lookup}
use around.Core.Spec.{SampleSpec, f32, interleaved, native}
use around.Engine.State.{
  is_cancelled, Engine, ActiveStream, decode_error, internal, buffering, playing, paused,
  codec_drop, reader_drop, new,
}
use around.Engine.Api.{
  SourceInfo, Opened, PreparedStream, prepare, seek_stream, prepared_stream, set_status, queue_seek,
}
use around.Engine.Loop.{
  Loop, Round, round, decode_round, finish, take_stream_resources, take_resources, submitted, again,
  result_of, ms_to_frames,
}
use around.Engine.Schedule.{
  apply, Op, seek, stop, pause, resume, apply_all, run_loop, run_stream_with_session,
}
use around.Engine.Invariant.{IsValidEngine, prepare-IsValidEngine}
use around.Engine.Reach.{prepares, calls, starts, goes, Reachable-IsValidEngine}
use around.Engine.EndOfStream.{run_loop-end_of_stream}
use around.Engine.Prepare.{Registered, prepare-Registered, prepare_refused, prepare_accepts}
use around.Engine.Seek.{Answered, seek_stream_lem, failed_seek_keeps_status, seek_resumes_paused}
use around.Engine.Rounds.{Advances, InLoop, decode_round-Advances, paused_round}
use around.Engine.Runs.{run_loop-stop}
use around.Engine.Ends.{Holds, CleanedUp, run_stream_with_session-CleanedUp}
use around.Engine.BadReads.{three_in_a_row, run_loop-decode_error}
use around.Engine.Take.{take_stream_resources-once}

abbrev song : SourceInfo
song = record { seekable = true; identifier = 47 ∷ 97 ∷ []; content_type = none }

abbrev opened : Opened
opened = record {
  stream_ptr = 100;
  codec_ref = 200;
  reader_ctx = 300;
  codec_name = 119 ∷ [];
  sample_rate = 44100;
  channels = 2;
  total_frames = 441000;
}

abbrev float_stereo : SampleSpec
float_stereo = record {
  sample_rate = 44100;
  channels = 2;
  encoding = f32;
  interleave = interleaved;
  byte_order = native;
}

abbrev start : Engine
start = new true

start-IsValidEngine : IsValidEngine start
unfolding new lookup
start-IsValidEngine k s found = cc

abbrev loaded : Engine
loaded = (prepare song (ok opened) start).1

loaded-IsValidEngine : IsValidEngine loaded
loaded-IsValidEngine =
    prepare-IsValidEngine song (ok opened) start (unfold new in ground arith) start-IsValidEngine

abbrev stream : ActiveStream
stream = prepared_stream song opened float_stereo 1

loaded_test : lookup 1 loaded.streams ≡ some stream
unfolding prepare new lookup around.Core.Spec.new_interleaved around.Base.Table.insert
loaded_test = refl

abbrev ticket : PreparedStream
ticket = record {
  stream_id = 1;
  codec_name = 119 ∷ [];
  duration_ms = some 10000;
  seekable = true;
  source_format = float_stereo;
}

ticket_test : (prepare song (ok opened) start).0 ≡ ok ticket
unfolding prepare new around.Core.Spec.new_interleaved
ticket_test = refl

prepare-Registered_example : Registered start opened ticket loaded
prepare-Registered_example =
    prepare-Registered song opened start ticket start-IsValidEngine ticket_test

abbrev silent : Opened
silent = record opened { sample_rate = 0 }

silent_test : (prepare song (ok silent) start).0 ≡ err decode_error
unfolding prepare new
silent_test = refl

prepare_refused_run :
    (decode_error ≡ decode_error)
    × ((prepare song (ok silent) start).1.streams ≡ start.streams)
    × ((prepare song (ok silent) start).1.next_stream_id ≡ start.next_stream_id)
    × ((prepare song (ok silent) start).1.releases
        ≡ start.releases ++ (codec_drop 200 100 ∷ reader_drop 300 ∷ []))
prepare_refused_run = prepare_refused song silent start decode_error silent_test

prepare_accepts_run :
    ((p : PreparedStream) × ((prepare song (ok opened) start).0 ≡ ok p))
    ↔ ((0 < opened.sample_rate) × (0 < opened.channels) × (opened.channels ≤ 32))
prepare_accepts_run = prepare_accepts song opened start

seek_stream_lem_example : Answered 1 5000 loaded stream (seek_stream 1 5000 loaded)
seek_stream_lem_example = seek_stream_lem 1 5000 loaded stream loaded_test

-- A round that decodes 1024 samples, one whose read fails, and one that ends the stream.
abbrev good : Round
good = record {
  rebind_device = true;
  codec_seek = pos;
  read = pos 1024;
  submit = submitted;
  rebind_output = true;
}

abbrev bad : Round
bad = record good { read = negsuc 0 }

abbrev last : Round
last = record good { read = pos 0 }

abbrev refusing : Round
refusing = record good { codec_seek = λ frame. negsuc 0 }

abbrev loop : Loop
loop = record {
  id = 1;
  stream_ptr = 100;
  codec_ref = 200;
  reader_ctx = 300;
  has_seek_rx = true;
  sample_rate = 44100;
  channels = 2;
  total_frames_decoded = 0;
  consecutive_errors = 0;
  failure = none;
}

abbrev seeking : ActiveStream
seeking = queue_seek 5000 stream

seeking_test : seeking.state.status ≡ buffering
seeking_test = refl

failed_seek_keeps_status_example :
    ((decode_round true refusing seeking loop).0.state.status ≡ buffering)
    × ((decode_round true refusing seeking loop).2 ≡ again)
failed_seek_keeps_status_example =
    failed_seek_keeps_status true refusing seeking loop (λ frame. (0, refl)) refl refl 1023 refl

abbrev paused_stream : ActiveStream
paused_stream = set_status paused stream

seek_resumes_paused_run :
    (decode_round true good paused_stream loop ≡ (paused_stream, loop, again))
    × ((decode_round true good (queue_seek 5000 paused_stream) loop).0.state.status ≡ playing)
seek_resumes_paused_run =
    seek_resumes_paused true good 5000 paused_stream loop refl (unfold prepared_stream in refl) refl
      (ms_to_frames 5000 44100) refl refl 1023 refl

paused_round_example : decode_round true good paused_stream loop ≡ (paused_stream, loop, again)
paused_round_example = paused_round true good paused_stream loop refl

loop-InLoop : InLoop stream loop
unfolding prepared_stream
loop-InLoop = record { fine = refl; low = ground arith; positioned = ground arith }

decode_round-Advances_run :
    let (t, k, v) = decode_round true bad stream loop in Advances (negsuc 0) loop t k v
decode_round-Advances_run = decode_round-Advances true bad stream loop loop-InLoop

abbrev schedule : List (List Op × Round)
schedule = ([], good) ∷ (seek 1 5000 ∷ [], bad) ∷ ([], last) ∷ []

abbrev broken : List (List Op × Round)
broken = ([], bad) ∷ ([], bad) ∷ ([], bad) ∷ []

abbrev ended : Engine
ended = record loaded { streams = []; releases = codec_drop 200 100 ∷ reader_drop 300 ∷ [] }

ended_test : run_stream_with_session 1 schedule loaded ≡ some (ok tt, ended)
unfolding run_stream_with_session take_stream_resources run_loop prepare new round lookup apply_all
    around.Core.Spec.new_interleaved around.Base.Table.insert decode_round
    around.Engine.Loop.read_block around.Engine.Schedule.apply seek_stream around.Base.Table.update
    around.Engine.Loop.drain_seeks around.Engine.Loop.apply_seek finish around.Base.Table.remove
    around.Engine.State.drop_stream
ended_test = refl

stream-Holds : Holds stream 200 100 300
unfolding prepared_stream
stream-Holds = record { has_ptr = refl; has_codec = refl; has_reader = refl }

run_stream_with_session-CleanedUp_example : CleanedUp loaded 1 200 100 300 ended
run_stream_with_session-CleanedUp_example =
    run_stream_with_session-CleanedUp 1 schedule loaded stream 200 100 300 loaded_test stream-Holds
      (ok tt) ended ended_test

-- The engine when the loop has taken the resources.
abbrev taken : Engine
taken = (take_stream_resources 1 loaded).1

abbrev taken_stream : ActiveStream
taken_stream = (take_resources 1 stream).1

taken_stream_test : lookup 1 taken.streams ≡ some taken_stream
unfolding take_stream_resources prepare new lookup around.Core.Spec.new_interleaved
    around.Base.Table.insert around.Base.Table.update
taken_stream_test = refl

taken_stream-InLoop : InLoop taken_stream loop
unfolding prepared_stream take_resources
taken_stream-InLoop = record { fine = refl; low = ground arith; positioned = ground arith }

broken_test : run_loop broken taken loop ≡ some (err decode_error, ended)
unfolding run_loop take_stream_resources prepare new round lookup apply_all
    around.Core.Spec.new_interleaved around.Base.Table.insert decode_round
    around.Engine.Loop.read_block around.Engine.Loop.drain_seeks around.Base.Table.update finish
    around.Base.Table.remove around.Engine.State.drop_stream
broken_test = refl

-- A block that is written between bad reads ends the row.
interrupted_test :
    three_in_a_row 0 (([], bad) ∷ ([], bad) ∷ ([], good) ∷ ([], bad) ∷ []) taken loop ≡ false
unfolding three_in_a_row take_stream_resources prepare new round lookup apply_all
    around.Core.Spec.new_interleaved around.Base.Table.insert decode_round
    around.Engine.Loop.read_block around.Engine.Loop.drain_seeks around.Base.Table.update
    around.Engine.Counts.count_round
interrupted_test = refl

run_loop-decode_error_example : three_in_a_row 0 broken taken loop ≡ true
run_loop-decode_error_example =
    run_loop-decode_error broken taken loop taken_stream taken_stream_test taken_stream-InLoop ended
      broken_test

run_loop-stop_example :
    run_loop ((pause 1 ∷ stop (some 1) ∷ resume 1 ∷ [], good) ∷ []) loaded loop
    ≡ some (
      result_of none,
      (finish (apply_all (pause 1 ∷ stop (some 1) ∷ resume 1 ∷ []) loaded) loop).1,
    )
run_loop-stop_example =
    run_loop-stop (pause 1 ∷ []) (resume 1 ∷ []) good [] loaded loop stream loaded_test

taken_test : (take_stream_resources 1 loaded).0 ≡ ok loop
unfolding take_stream_resources prepare new lookup around.Core.Spec.new_interleaved
    around.Base.Table.insert
taken_test = refl

take_stream_resources-once_run :
    (take_stream_resources 1 (take_stream_resources 1 loaded).1).0 ≡ err internal
take_stream_resources-once_run = take_stream_resources-once 1 loaded loop taken_test

room : start.next_stream_id + 1 < 2 ^ 64
unfolding new
room = ground arith

Reachable-IsValidEngine_example : IsValidEngine (apply (pause 1) loaded)
Reachable-IsValidEngine_example =
    Reachable-IsValidEngine
      (goes (goes (starts true) (prepares song (ok opened) room)) (calls (pause 1)))

eof_test : is_cancelled loaded stream ≡ false
unfolding prepare new around.Core.Spec.new_interleaved
eof_test = refl

there_test : loaded.device_lost ≡ false
unfolding prepare new around.Core.Spec.new_interleaved
there_test = refl

run_loop-end_of_stream_example :
    (e' : Engine) × (run_loop (([], last) ∷ []) loaded loop ≡ some (ok tt, e'))
unfolding apply_all prepare
run_loop-end_of_stream_example =
    run_loop-end_of_stream [] last [] loaded loop stream loaded_test loop-InLoop eof_test there_test
      (unfold prepared_stream in refl) refl
