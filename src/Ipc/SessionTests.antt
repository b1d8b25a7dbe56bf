-- ===== src/Ipc/SessionTests.antt =====
-- Runs of crates/around-engine/src/ipc/connection.rs.
use around.Base.{
  ℕ, true, false, ◌≡◌, ◌≢◌, ◌↔◌, refl, arith, some, none, List, [], ◌∷◌, ◌++◌, length, take, ok,
}
use around.Ipc.Types.{IpcCommand}
use around.Ipc.Framing.{framed}
use around.Ipc.Lines.{trim, trimmed, json_line, is_utf8_from}
use around.Ipc.Connection.{
  Formats, Writer, proto, json, detect, detect_from_byte, first_byte, is_ascii_whitespace,
  handle_connection,
}
use around.Ipc.Sent.{Sent, nothing, line, lines, IsBlank, IsCommand}
use around.Ipc.Sessions.{answer_all, handle_connection-answer_all, handle_connection-ends}
use around.Ipc.Detection.{detect-framed}
use around.Ipc.Tests.{world, start}

-- Every message is a clean-up, and every answer is a brace.
abbrev formats : Formats
formats = record {
  decode = λ message. ok (some IpcCommand.cleanup);
  encode = λ resp. b'{' ∷ [];
  from_str = λ text. some IpcCommand.cleanup;
  to_string = λ resp. some (b'{' ∷ []);
}

-- A client that takes all bytes.
abbrev patient : Writer
patient = record { Out = List ℕ; write_all = λ bytes out. (true, out ++ bytes) }

-- A blank line, and one with braces.
abbrev two_lines : List ℕ
two_lines = 10 ∷ b'{' ∷ b'}' ∷ 10 ∷ []

blank : IsBlank []
unfolding json_line is_utf8_from trim trimmed
blank = record {
  is_line = record { one_line = tt; valid = refl; fits = ground arith };
  white = refl;
}

braces : IsCommand formats.from_str (b'{' ∷ b'}' ∷ []) IpcCommand.cleanup
unfolding json_line is_utf8_from trim trimmed
braces = record {
  is_line = record {
    one_line = ((λ h. absurd (omega (arith, h))), ((λ h. absurd (omega (arith, h))), tt));
    valid = refl;
    fits = ground arith;
  };
  not_white = ground arith;
  means = refl;
}

two_lines-Sent : Sent formats (detect proto (take 4 two_lines)) two_lines (IpcCommand.cleanup ∷ [])
unfolding lines detect detect_from_byte first_byte is_ascii_whitespace
two_lines-Sent =
    line ([] ∷ []) (b'{' ∷ b'}' ∷ []) IpcCommand.cleanup (omega arith) (blank, tt) braces nothing

handle_connection-answer_all_example :
    handle_connection formats patient world (some 4) proto two_lines start []
    ≡ some (
        answer_all formats patient world
          (detect proto (take 4 two_lines))
          (IpcCommand.cleanup ∷ [])
          start
          [])
handle_connection-answer_all_example =
    handle_connection-answer_all formats patient world 4 proto two_lines (IpcCommand.cleanup ∷ [])
      start [] (omega arith) two_lines-Sent

handle_connection-ends_example :
    handle_connection formats patient world (some 2) json two_lines start [] ≢ none
handle_connection-ends_example =
    handle_connection-ends formats patient world (some 2) json two_lines start []

abbrev message : List ℕ
message = 82 ∷ 0 ∷ []

black : is_ascii_whitespace (length message) ≡ false
unfolding is_ascii_whitespace
black = ground arith

detect-framed_example :
    detect proto (take 5 (framed message ++ 9 ∷ [])) ≡ json ↔ length message ≡ 123
detect-framed_example = detect-framed 4 message (9 ∷ []) black
