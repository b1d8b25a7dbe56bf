-- ===== src/Lib.antt =====
-- around: a playback engine. A source is opened by a codec that is loaded at run time, its frames are
-- decoded in a loop per stream, and a device is bound whose mode takes them; clients steer the streams
-- by commands.
--
-- The parts, each with the files that model it:
--   Base and Base/*: shared lists, results, tables, comparisons and texts.
--   Core/Spec and Core/Spec/*: `SampleSpec` and the PCM encodings, crates/around-core/src/types.rs.
--   Core/Buffer: views of PCM bytes, crates/around-core/src/audio_buffer.rs. Core/Buffers and
--     Core/ByteOrders: theorems.
--   Output/Device, Output/Loss, Output/Plan and their children: devices, modes and preferences, the
--     conversion loss and `plan_output`, crates/around-engine/src/output_plan.rs. The four nested loops
--     are `try_preference`, `try_device`, `try_mode` and `try_rate`.
--   Output/Session and its children: `OutputSession` over the `MemoryOutputAdapter`,
--     crates/around-engine/src/output_session.rs. The writes are a list in the adapter. `rebind` takes
--     the old binding's `close` as an argument, since other bindings than the memory's may fail there.
--   Engine/State, Engine/Api, Engine/Loop, Engine/Schedule: `Engine` of
--     crates/around-engine/src/pipeline.rs. `State` has its fields, `Api` the operations `prepare`,
--     `seek_stream`, `stop_stream` and the others, each giving the engine afterwards, and `Loop` the
--     parts of `run_stream_with_session`: `round` is the body of the decode loop and `finish` what
--     follows the loop. `Schedule` has the loop, `run_loop`.
--   Engine/Query: what the engine answers about its streams.
--   Engine/Frame, Invariant, Prepare, Seek, Rounds, Calls, Runs, Ends, Counts, BadReads, Take,
--     EndOfStream: theorems. Engine/Reach: the states that an engine can be in, as a step relation,
--     and their invariant.
--   Ipc/Types, Ipc/Status, Ipc/Codecs, Ipc/Handlers: commands, answers and their handlers,
--     crates/around-engine/src/ipc/{types,handlers,mod}.rs. `Server` is the engine, the streams whose
--     loop has been spawned, and the temporary files; `World` answers for what is outside.
--   Ipc/Varint, Ipc/Framing: the frames of crates/around-engine/src/ipc/codec_proto.rs. `encode_loop`
--     has fuel for ten groups of seven bits, as many as a `u64` has, and `read_varint` reads ten bytes
--     at most, as the source does.
--   Ipc/Lines: the lines of `JsonLineCodec`, crates/around-engine/src/ipc/codec.rs. Ipc/Connection: the
--     choice of the wire format and `handle_connection` of connection.rs; `serve_commands` is its loop.
--   Ipc/Answers, Invariant, Files, Listing, Play, Consumes, Sent, Sessions, Detection: theorems.
--     `answer_all` of Ipc/Sessions is what a connection promises.
--   Codec/Io: the callbacks `read_cb` and `seek_cb` of crates/around-engine/src/pipeline.rs, through
--     which a codec reads its source, over a source that is a parameter (`ReadSeek`).
--   Codec/Bytes and Codec/Wav with Codec/Wav/{Parser,Header,Samples,Stream}: the WAV codec,
--     crates/around-codec-wav/src/lib.rs. `read_chunks` is the loop of `parse_header`, `read_frames`
--     that of `read`; `open` is called `open_wav` here. Codec/Wav/{Fmt,Written,File} describe a WAV
--     file independently of the parser: `wav_bytes` writes one down in RIFF's form, with the padding
--     of odd chunks, and `written_header` is what it states, with the true place of its samples.
--   Codec/Wav/{Files,RoundTrip,Decoding,Reading,Terminates,Opening,Seeking}: theorems.
--   Codec/Choose and Codec/Chosen: `Engine::open_codec` of crates/around-engine/src/pipeline.rs, which
--     probes the codecs and opens the source with the chosen one.
--   Filter/Encode with Filter/{Written,Encoded}: `encode_f32`, the last step of a chain of filters,
--     crates/around-engine/src/filter_chain.rs.
--   Extensions/Trust and Extensions/Trust/Runs: the counter of crates/around-extensions/src/trust.rs.
--   Extensions/State, Lifecycle, Slots, Scan, Load, Unload, Reload: `Framework` of
--     crates/around-extensions/src/lib.rs, with the hooks of lifecycle.rs and the registers that
--     crates/around-extensions-macros makes. `World` answers for the directories, the dynamic linker
--     and what the libraries do. `load` is `load_extension`: `load_step` is its way in and
--     `load_claimed` what it does under its claim on the name.
--   Extensions/Keeps, Consistent, Known, Installing, Claims, Loading, LoadEnds, Unloading, Unloads,
--     Drains, Reloading, Reloads: theorems. Extensions/Reach: the states of a framework as a step
--     relation, and their invariant.
--   Core/Tests, Core/BufferTests, Output/Tests, Output/Session/Tests, Engine/Tests, Ipc/Tests,
--     Ipc/WireTests, Ipc/SessionTests, Codec/Tests, Filter/Tests, Extensions/Tests and
--     Extensions/FrameworkTests: runs on concrete inputs.
--
-- Machine integers are natural numbers with the wrap-around written out. A schedule of the loop is a
-- list of rounds: what other threads call before the round, and what the codec and the output answer in
-- it. `run_loop` is `none` where a schedule ends before the loop does. Raw pointers are numbers; that
-- they are given back is recorded in the engine's list `releases`, also by `drop_stream`, the `Drop` of
-- a stream whose entry is removed.
--
-- A connection's loop has fuel for one round more than the bytes that the client sends, and each round
-- but the last reads some. The loop over a file's chunks has fuel for its rounds: one more than the
-- bytes that are left is enough, since each round reads some. The recursion of `load` has fuel for its
-- depth: one more than the names that are not being loaded, since each call claims one. The boxes that
-- hold an extension's metadata are numbered as they are made, and a map is a list of pairs in an order
-- that no theorem depends on.
--
-- Not modelled: the filters and the converters of rates between the decoder and the encoding, codecs
-- other than the WAV codec, what runs inside an extension, two threads that change the framework at
-- once, the sound devices, the transports of the commands with the loop that accepts connections, JSON
-- itself, the texts of errors, and logging.
pub mod Base
pub mod Core
pub mod Output
pub mod Engine
pub mod Codec
pub mod Extensions
pub mod Filter
pub mod Ipc
