-- ===== src/Ipc/Tests.antt =====
-- Runs of crates/around-engine/src/ipc with one file.
use mathlib.Core.List.{Memᴰ}
use around.Base.{
  ℕ, ◌+◌, ◌<◌, ◌^◌, Bool, true, false, ◌≡◌, ◌↔◌, refl, arith, Option, none, some, List, [], ◌∷◌,
  map, Result, ok, err,
}
use around.Base.Text.{Text}
use around.Base.Table.{lookup}
use around.Core.Spec.{SampleSpec, f32, interleaved, native}
use around.Engine.State.{ActiveStream, new}
use around.Engine.Api.{SourceInfo, Opened, PreparedStream, prepare, prepared_stream, stream_state}
use around.Engine.Query.{stream_ids}
use around.Engine.Invariant.{IsValidEngine}
use around.Ipc.Types
use around.Ipc.Types.{IpcCommand}
use around.Ipc.Status.{status_entries, handle_status}
use around.Ipc.Codecs.{World, Entry, scan_and_remove_stale_temp_files, handle_load_codec_bytes}
use around.Ipc.Handlers.{Server, handle_play, handle_command, resolve_stream_id}
use around.Ipc.Answers.{Handled, handle_command-Handled}
use around.Ipc.Invariant.{handle_command-IsValidEngine}
use around.Ipc.Files.{Stale, handle_load_codec_bytes_failed, scan_and_remove_iff}
use around.Ipc.Listing.{Describes, status_entries_all, handle_status-Describes}
use around.Ipc.Play.{Played, handle_play-Played, resolve_stream_id_sole}

abbrev opened : Opened
opened = record {
  stream_ptr = 100;
  codec_ref = 200;
  reader_ctx = 300;
  codec_name = 119 ∷ [];
  sample_rate = 48000;
  channels = 1;
  total_frames = 0;
}

abbrev song : SourceInfo
song = record { seekable = true; identifier = 97 ∷ []; content_type = none }

-- A temporary directory with one file of another process and one of this one.
abbrev stale_entry : Entry
stale_entry = record { path = 47 ∷ 99 ∷ 50 ∷ []; name = some (99 ∷ 50 ∷ []); removable = true }

abbrev own_entry : Entry
own_entry = record { path = 47 ∷ 99 ∷ 49 ∷ []; name = some (99 ∷ 49 ∷ []); removable = true }

abbrev pub world : World
world = record {
  exists = λ path. true;
  source = λ path. song;
  open_codec = λ path. ok opened;
  temp_entries = stale_entry ∷ own_entry ∷ [];
  prefix = 99 ∷ [];
  our_prefix = 99 ∷ 49 ∷ [];
  index_entries = [];
  load = λ name. false;
  tmp_path = λ content. 47 ∷ content;
  can_write = λ content. true;
  file_stem = λ path. path;
}

abbrev pub start : Server
start = record { engine = new false; spawned = []; temp_files = (98 ∷ []) ∷ [] }

start-IsValidEngine : IsValidEngine start.engine
unfolding new lookup
start-IsValidEngine k s found = cc

room : start.engine.next_stream_id + 1 < 2 ^ 64
unfolding new
room = ground arith

abbrev path : Text
path = 97 ∷ []

abbrev playing : Server
playing = (handle_command world (IpcCommand.play path none) start).1

handle_command-IsValidEngine_example : IsValidEngine playing.engine
handle_command-IsValidEngine_example =
    handle_command-IsValidEngine world (IpcCommand.play path none) start room start-IsValidEngine

handle_command-Handled_example :
    Handled start (handle_command world (IpcCommand.seek 10 none) start)
handle_command-Handled_example = handle_command-Handled world (IpcCommand.seek 10 none) start

abbrev mono : SampleSpec
mono = record {
  sample_rate = 48000;
  channels = 1;
  encoding = f32;
  interleave = interleaved;
  byte_order = native;
}

abbrev ticket : PreparedStream
ticket = record {
  stream_id = 1;
  codec_name = 119 ∷ [];
  duration_ms = none;
  seekable = true;
  source_format = mono;
}

ticket_test : (prepare song (ok opened) start.engine).0 ≡ ok ticket
unfolding prepare new around.Core.Spec.new_interleaved
ticket_test = refl

handle_play-Played_run : Played path opened ticket start (handle_play world path start)
handle_play-Played_run =
    handle_play-Played world path opened ticket start start-IsValidEngine refl refl ticket_test

abbrev stream : ActiveStream
stream = prepared_stream song opened mono 1

playing_test : lookup 1 playing.engine.streams ≡ some stream
unfolding handle_command lookup handle_play prepare around.Core.Spec.new_interleaved
    around.Base.Table.insert new
playing_test = refl

handle_status-Describes_run : Describes 1 stream (handle_status (some 1) playing.engine)
handle_status-Describes_run = handle_status-Describes 1 playing.engine stream playing_test

status_entries_all_run :
    map (λ entry. entry.stream_id) (status_entries playing.engine (stream_ids playing.engine))
    ≡ stream_ids playing.engine
status_entries_all_run = status_entries_all playing.engine

resolve_test : resolve_stream_id playing.engine none ≡ ok 1
unfolding handle_command resolve_stream_id around.Engine.Api.sole_stream_id handle_play prepare
    around.Core.Spec.new_interleaved around.Base.Table.insert new
resolve_test = refl

resolve_stream_id_sole_run : ◌≡◌ {A = ℕ} 1 1
resolve_stream_id_sole_run =
    resolve_stream_id_sole playing.engine 1 1 stream handle_command-IsValidEngine_example
      resolve_test playing_test (unfold prepared_stream in refl)

not_listed : ¬ Memᴰ {A = Text} (47 ∷ 5 ∷ []) ((98 ∷ []) ∷ [])
not_listed (Memᴰ.head same) = cc
not_listed (Memᴰ.tail m) = elim m [ ]

failed_test : (handle_load_codec_bytes world (5 ∷ []) start.temp_files).0.status ≡ Types.error
unfolding handle_load_codec_bytes
failed_test = refl

handle_load_codec_bytes_failed_run :
    (handle_load_codec_bytes world (5 ∷ []) start.temp_files).1 ≡ start.temp_files
handle_load_codec_bytes_failed_run =
    handle_load_codec_bytes_failed world (5 ∷ []) start.temp_files not_listed failed_test

scan_and_remove_iff_run :
    Memᴰ stale_entry.path (scan_and_remove_stale_temp_files world world.temp_entries)
    ↔ ((entry : Entry) × Memᴰ entry world.temp_entries × Stale world stale_entry.path entry)
scan_and_remove_iff_run = scan_and_remove_iff world stale_entry.path world.temp_entries
