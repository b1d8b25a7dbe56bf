-- ===== src/Ipc/Framing.antt =====
-- crates/around-engine/src/ipc/codec_proto.rs: the frames of `ProtoCodec`.
-- The messages are encoded and decoded by generated code, which is a parameter. A reader is the list of
-- the bytes that will come; a `read_exact` that finds too few of them is an error.
use mathlib.Core.List.{append-nil, append_assoc}
use around.Base.{
  ℕ, zero, suc, ◌+◌, ◌*◌, ◌≤◌, ◌<◌, ◌^◌, ◌/◌, ◌%◌, subst, length-append, true, false, ltb, leb,
  ◌==◌, if◌then◌else◌, ◌≡◌, refl, arith, Option, some, List, [], ◌∷◌, ◌++◌, length, take, drop,
  take_all, drop_all, inl, inr, Bool-cases, Result, ok, err, ◌>>=◌, ◌>>◌, guard, ok_or,
}
use around.Ipc.Types.{IpcCommand}
use around.Ipc.Varint.{
  encode_varint, encode_loop, decode_varint, decode_varint-encode_varint, encode_last, encode_more,
}

pub data ReadError : Type 0 where
  varint_too_long invalid_varint message_too_large unexpected_eof invalid_message empty_command :
      ReadError

-- The loop that reads the length's bytes, with how many more may come.
unfoldable pub read_varint : ℕ → List ℕ → Result ReadError (List ℕ × List ℕ)
read_varint zero reader = err varint_too_long
read_varint (suc more) [] = err unexpected_eof
read_varint (suc more) (byte ∷ reader) =
    let later = read_varint more reader in
    if ltb byte 128 then ok (byte ∷ [], reader) else (later >>= λ r. ok (byte ∷ r.0, r.1))

-- `AsyncReadExt::read_exact`
unfoldable pub read_exact : ℕ → List ℕ → Result ReadError (List ℕ × List ℕ)
read_exact n reader =
    if ltb (length reader) n then err unexpected_eof else ok (take n reader, drop n reader)

-- 64 MiB.
abbrev pub max_message : ℕ
max_message = 64 * 1024 * 1024

module _ (decode : List ℕ → Result ReadError (Option IpcCommand)) where
  unfoldable pub read_command : List ℕ → Result ReadError (IpcCommand × List ℕ)
  read_command reader = do
    prefix ← read_varint 10 reader
    msg_len ← ok_or (decode_varint prefix.0) invalid_varint
    guard (leb msg_len.0 max_message) message_too_large
    message ← read_exact msg_len.0 prefix.1
    command ← decode message.0
    c ← ok_or command empty_command
    ok (c, message.1)

-- The bytes that `write_response` writes for an encoded message.
unfoldable pub framed : List ℕ → List ℕ
framed message = encode_varint (length message) [] ++ message

read_last :
    (more byte : ℕ) (rest : List ℕ)
    → byte < 128
    → read_varint (suc more) (byte ∷ rest) ≡ ok (byte ∷ [], rest)
unfolding read_varint
read_last more byte rest small = ground arith

read_more :
    (more group : ℕ) (reader bytes rest : List ℕ)
    → read_varint more reader ≡ ok (bytes, rest)
    → read_varint (suc more) ((group + 128) ∷ reader) ≡ ok ((group + 128) ∷ bytes, rest)
unfolding read_varint
read_more more group reader bytes rest h =
    let big : ltb (group + 128) 128 ≡ false = ground arith in rw big (rw h refl)

read_varint-encode_loop :
    (more value : ℕ) (rest : List ℕ)
    → value < 128 ^ suc more
    → read_varint (suc more) (encode_loop (suc more) value ++ rest)
      ≡ ok (encode_loop (suc more) value, rest)
read_varint-encode_loop zero value rest small =
    rw (encode_last zero value (ground (arith, small)))
      (read_last zero (value % 128) rest (omega arith))
read_varint-encode_loop (suc more) value rest small = elim (Bool-cases (value / 128 == 0)) [
  | inl gone ↦
      rw (encode_last (suc more) value (ground arith))
        (read_last (suc more) (value % 128) rest (omega arith))
  | inr left ↦ rw (encode_more (suc more) value (ground arith)) (
      read_more (suc more) (value % 128) _ _ rest
        (read_varint-encode_loop more (value / 128) rest (omega (arith, small))))
]

module _ (len : ℕ) (rest : List ℕ) (fits : len < 2 ^ 64) where
  prefix_read : read_varint 10 (encode_varint len [] ++ rest) ≡ ok (encode_varint len [], rest)
  unfolding encode_varint
  prefix_read = read_varint-encode_loop 9 len rest (omega (arith, fits))

  prefix_decoded : decode_varint (encode_varint len []) ≡ some (len, length (encode_varint len []))
  prefix_decoded =
      subst (λ bytes. decode_varint bytes ≡ some (len, length (encode_varint len [])))
        (append-nil (encode_varint len [])) (decode_varint-encode_varint len [] fits)

read_exact-append :
    (message rest : List ℕ) → read_exact (length message) (message ++ rest) ≡ ok (message, rest)
unfolding read_exact
read_exact-append message rest =
    let enough : ltb (length (message ++ rest)) (length message) ≡ false =
      ground (arith, length-append message rest) in
    rw enough (rw (take_all message rest) (rw (drop_all message rest) refl))

-- A framed message of at most 64 MiB that decodes to a command is read as that command, and the
-- reader is left at what follows the frame.
pub read_command-framed :
    (decode : List ℕ → Result ReadError (Option IpcCommand)) (message rest : List ℕ)
    (c : IpcCommand)
    → length message ≤ max_message
    → decode message ≡ ok (some c)
    → read_command decode (framed message ++ rest) ≡ ok (c, rest)
unfolding read_command framed
read_command-framed decode message rest c fits decodes =
    let len = length message in
    let within : leb len max_message ≡ true = ground (arith, fits) in
    rw (append_assoc (encode_varint len []) message rest, read_command)
      (rw (prefix_read len (message ++ rest) (omega (arith, fits))) (
        rw (prefix_decoded len rest (omega (arith, fits)))
          (rw within (rw (read_exact-append message rest) (rw decodes refl)))))

-- A frame that announces more than 64 MiB is refused, whatever follows.
pub read_command-too_large :
    (decode : List ℕ → Result ReadError (Option IpcCommand)) (len : ℕ) (rest : List ℕ)
    → max_message < len
    → len < 2 ^ 64
    → read_command decode (encode_varint len [] ++ rest) ≡ err message_too_large
unfolding read_command
read_command-too_large decode len rest large fits =
    let refused : leb len max_message ≡ false = ground (arith, large) in
    rw (prefix_read len rest fits) (rw (prefix_decoded len rest fits) (rw refused refl))
