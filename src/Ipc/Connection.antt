-- ===== src/Ipc/Connection.antt =====
-- crates/around-engine/src/ipc/connection.rs and `IpcWire` of codec.rs: a client's connection.
-- Both wire formats are compiled in. What is outside is a parameter: the generated and serialised forms
-- of the messages (`Formats`), and how the client takes the bytes that are written to it (`Writer`).
use around.Base.{
  ℕ, zero, suc, Bool, true, false, ◌||◌, ◌==◌, if◌then◌else◌, Option, none, some, List, [], ◌∷◌,
  length, take, Result, ok, err,
}
use around.Base.Text.{Text}
use around.Ipc.Types.{IpcCommand, IpcResponse}
use around.Ipc.Codecs.{World}
use around.Ipc.Handlers.{Server, handle_command}
use around.Ipc.Framing.{ReadError, read_command, framed}
use around.Ipc.Lines.{read_json, json_line}

pub record Formats : Type 0 where
  pub decode : List ℕ → Result ReadError (Option IpcCommand)
  pub encode : IpcResponse → List ℕ
  pub from_str : Text → Option IpcCommand
  pub to_string : IpcResponse → Option Text

-- `write_all`: whether it succeeds, and the writer afterwards.
pub record Writer : Type 1 where
  pub Out : Type 0
  pub write_all : List ℕ → Out → Bool × Out

pub data IpcWire : Type 0 where
  proto json : IpcWire

unfoldable pub select : Bool → IpcWire
select true = json
select false = proto

unfoldable pub detect_from_byte : ℕ → Option IpcWire
detect_from_byte byte = if byte == b'{' then some json else none

-- `u8::is_ascii_whitespace`
unfoldable pub is_ascii_whitespace : ℕ → Bool
is_ascii_whitespace b = b == 9 || b == 10 || b == 12 || b == 13 || b == 32

-- `find(|byte| !byte.is_ascii_whitespace())`
unfoldable pub first_byte : List ℕ → Option ℕ
first_byte [] = none
first_byte (b ∷ bs) = if is_ascii_whitespace b then first_byte bs else some b

abbrev pub wire_or : IpcWire → Option IpcWire → IpcWire
wire_or codec none = codec
wire_or codec (some found) = found

abbrev pub of_first : Option ℕ → Option IpcWire
of_first none = none
of_first (some b) = detect_from_byte b

-- The wire format of a connection whose first bytes are `buf`.
unfoldable pub detect : IpcWire → List ℕ → IpcWire
detect codec buf = wire_or codec (of_first (first_byte buf))

abbrev pub to_option {ℓ} : {E A : Type ℓ} → Result E A → Option A
to_option (ok a) = some a
to_option (err e) = none

module _ (f : Formats) where
  -- `IpcWire::read_command`; every error ends the connection.
  unfoldable pub read_wire : IpcWire → List ℕ → Option (IpcCommand × List ℕ)
  read_wire proto reader = to_option (read_command f.decode reader)
  read_wire json reader = to_option (read_json f.from_str reader)

  abbrev pub line_of : Option Text → Option (List ℕ)
  line_of none = none
  line_of (some text) = some (json_line text)

  -- What `IpcWire::write_response` writes.
  unfoldable pub response_bytes : IpcWire → IpcResponse → Option (List ℕ)
  response_bytes proto resp = some (framed (f.encode resp))
  response_bytes json resp = line_of (f.to_string resp)

  module _ (writer : Writer) where
    unfoldable pub write_response : Option (List ℕ) → writer.Out → Bool × writer.Out
    write_response none out = (false, out)
    write_response (some bytes) out = writer.write_all bytes out

    -- An answer that cannot be written ends the connection.
    unfoldable pub written :
        (writer.Out → Option (Server × writer.Out))
        → Server
        → Bool × writer.Out
        → Option (Server × writer.Out)
    written later v (true, out) = later out
    written later v (false, out) = some (v, out)

    module _ (w : World) where
      unfoldable pub serve_read :
          (List ℕ → Server → writer.Out → Option (Server × writer.Out))
          → IpcWire
          → Option (IpcCommand × List ℕ)
          → Server
          → writer.Out
          → Option (Server × writer.Out)
      serve_read later wire none v out = some (v, out)
      serve_read later wire (some (cmd, reader)) v out =
          let handled = handle_command w cmd v in
          written (later reader handled.1) handled.1
            (write_response (response_bytes wire handled.0) out)

      -- The loop over the commands, with fuel for its rounds.
      unfoldable pub serve_commands :
          ℕ → IpcWire → List ℕ → Server → writer.Out → Option (Server × writer.Out)
      serve_commands zero wire reader v out = none
      serve_commands (suc fuel) wire reader v out =
          serve_read (serve_commands fuel wire) wire (read_wire wire reader) v out

      -- `handle_connection`, where the first `fill_buf` gives `some n` bytes, or fails.
      unfoldable pub handle_connection :
          Option ℕ → IpcWire → List ℕ → Server → writer.Out → Option (Server × writer.Out)
      handle_connection none codec reader v out = some (v, out)
      handle_connection (some n) codec reader v out =
          if length (take n reader) == 0
          then some (v, out)
          else serve_commands (suc (length reader)) (detect codec (take n reader)) reader v out
