-- ===== src/Ipc/WireTests.antt =====
-- Runs of crates/around-engine/src/ipc/codec_proto.rs.
use around.Base.{err, ℕ, ◌≡◌, refl, arith, Option, some, List, [], ◌∷◌, ◌++◌, length, Result, ok}
use around.Ipc.Types.{IpcCommand}
use around.Ipc.Varint.{encode_varint, decode_varint, decode_varint-encode_varint}
use around.Ipc.Framing.{
  ReadError, message_too_large, read_command, framed, read_command-framed, read_command-too_large,
}

decode_varint-encode_varint_run :
    decode_varint (encode_varint 300 [] ++ (7 ∷ [])) ≡ some (300, length (encode_varint 300 []))
decode_varint-encode_varint_run = decode_varint-encode_varint 300 (7 ∷ []) (ground arith)

-- A decoder that takes every message for a clean-up.
abbrev decode : List ℕ → Result ReadError (Option IpcCommand)
decode message = ok (some IpcCommand.cleanup)

read_command-framed_example :
    read_command decode (framed (82 ∷ 0 ∷ []) ++ (9 ∷ [])) ≡ ok (IpcCommand.cleanup, 9 ∷ [])
read_command-framed_example =
    read_command-framed decode (82 ∷ 0 ∷ []) (9 ∷ []) IpcCommand.cleanup (ground arith) refl

read_command-too_large_run :
    read_command decode (encode_varint 67108865 [] ++ []) ≡ err message_too_large
read_command-too_large_run = read_command-too_large decode 67108865 [] (ground arith) (ground arith)
