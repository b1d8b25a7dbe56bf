-- ===== src/Ipc/Sessions.antt =====
-- crates/around-engine/src/ipc/connection.rs: a connection answers its client's commands in order.
use around.Base.{
  ◌∙◌, ℕ, zero, suc, ◌<◌, ◌==◌, Bool, true, false, if◌then◌else◌, ◌≡◌, ◌≢◌, refl, arith, Option,
  some, none, List, [], ◌∷◌, length, take, inl, inr, Bool-cases, sym,
}
use around.Ipc.Types.{IpcCommand}
use around.Ipc.Codecs.{World}
use around.Ipc.Handlers.{Server, handle_command}
use around.Ipc.Connection.{
  Formats, Writer, IpcWire, proto, json, read_wire, response_bytes, write_response, written,
  serve_read, serve_commands, handle_connection, detect,
}
use around.Ipc.Consumes.{read_wire_lt}
use around.Ipc.Sent.{Sent, nothing, frame, line, read_wire-nil, read_wire-frame, read_wire-line}

module _ (f : Formats) (writer : Writer) (w : World) where
  written-ne :
      (later : writer.Out → Option (Server × writer.Out)) (v : Server) (wrote : Bool × writer.Out)
      → ((out : writer.Out) → later out ≢ none)
      → written f writer later v wrote ≢ none
  unfolding written
  written-ne later v (true, out) go = go out
  written-ne later v (false, out) go = λ h. cc

  serve_read-ne :
      (later : List ℕ → Server → writer.Out → Option (Server × writer.Out)) (wire : IpcWire)
      (o : Option (IpcCommand × List ℕ)) (v : Server) (out : writer.Out)
      → ((c : IpcCommand) (rest : List ℕ)
          → o ≡ some (c, rest)
          → (v : Server) (out : writer.Out) → later rest v out ≢ none)
      → serve_read f writer w later wire o v out ≢ none
  unfolding serve_read
  serve_read-ne later wire none v out go = λ h. cc
  serve_read-ne later wire (some (c, rest)) v out go =
      written-ne _ _ _ (go c rest refl (handle_command w c v).1)

  serve_commands-ne :
      (fuel : ℕ) (wire : IpcWire) (reader : List ℕ)
      → length reader < fuel
      → (v : Server) (out : writer.Out) → serve_commands f writer w fuel wire reader v out ≢ none
  unfolding serve_commands
  serve_commands-ne zero wire reader small v out = absurd (omega (arith, small))
  serve_commands-ne (suc fuel) wire reader small v out =
      serve_read-ne (serve_commands f writer w fuel wire) wire (read_wire f wire reader) v out
        (λ c rest e.
          serve_commands-ne fuel wire rest
            (omega (arith, read_wire_lt f wire reader c rest e, small)))

  -- A connection ends whatever the client sends and however its bytes are cut: the loop over the
  -- commands takes fewer rounds than there are bytes, and one.
  pub handle_connection-ends :
      (first : Option ℕ) (codec : IpcWire) (reader : List ℕ) (v : Server) (out : writer.Out)
      → handle_connection f writer w first codec reader v out ≢ none
  unfolding handle_connection
  handle_connection-ends none codec reader v out = λ h. cc
  handle_connection-ends (some n) codec reader v out =
      elim (Bool-cases (length (take n reader) == 0)) [
        | inl closed ↦ rw closed (λ h. cc)
        | inr sent ↦ rw sent (
            serve_commands-ne (suc (length reader)) (detect codec (take n reader)) reader
              (omega arith) v out)
      ]

  -- The specification: each command is handled after the one before it, and answered before the next,
  -- until an answer cannot be written.
  unfoldable pub answer_all : IpcWire → List IpcCommand → Server → writer.Out → Server × writer.Out
  answer_all wire [] v out = (v, out)
  answer_all wire (c ∷ cs) v out =
      let handled = handle_command w c v in
      let wrote = write_response f writer (response_bytes f wire handled.0) out in
      let rest = answer_all wire cs handled.1 wrote.1 in
      if wrote.0 then rest else (handled.1, wrote.1)

  written_rest :
      (later : writer.Out → Option (Server × writer.Out)) (rest : writer.Out → Server × writer.Out)
      (v : Server) (wrote : Bool × writer.Out)
      → ((out : writer.Out) → later out ≡ some (rest out))
      → written f writer later v wrote ≡ some (if wrote.0 then rest wrote.1 else (v, wrote.1))
  unfolding written
  written_rest later rest v (true, out) go = go out
  written_rest later rest v (false, out) go = refl

  serve_commands-Sent :
      (fuel : ℕ) {wire : IpcWire} {bytes : List ℕ} {cs : List IpcCommand}
      → Sent f wire bytes cs
      → length bytes < fuel
      → (v : Server) (out : writer.Out)
      → serve_commands f writer w fuel wire bytes v out ≡ some (answer_all wire cs v out)
  unfolding serve_commands serve_read answer_all
  serve_commands-Sent zero sent small v out = absurd (omega (arith, small))
  serve_commands-Sent (suc fuel) (nothing {wire = wire}) small v out =
      rw (read_wire-nil f wire) refl
  serve_commands-Sent (suc fuel) (frame {bytes = bytes} {cs = cs} message c fits means later) small
        v out =
      let read = read_wire-frame f message bytes c fits means in
      let lt = read_wire_lt f proto _ c bytes read in
      rw read (
        written_rest _ (answer_all proto cs (handle_command w c v).1) _ _
          (serve_commands-Sent fuel later (omega (arith, lt, small)) _))
  serve_commands-Sent (suc fuel)
        (line {bytes = bytes} {cs = cs} blanks text c few white means later) small v out =
      let read = read_wire-line f blanks text bytes c few white means in
      let lt = read_wire_lt f json _ c bytes read in
      rw read (
        written_rest _ (answer_all json cs (handle_command w c v).1) _ _
          (serve_commands-Sent fuel later (omega (arith, lt, small)) _))

  serve_commands-nil :
      (wire : IpcWire) (v : Server) (out : writer.Out)
      → serve_commands f writer w 1 wire [] v out ≡ some (v, out)
  unfolding serve_commands serve_read
  serve_commands-nil wire v out = rw (read_wire-nil f wire) refl

  -- A client that sends commands in the wire format that its first bytes select, and then closes, has
  -- them handled one after the other and answered in that order, as the specification `answer_all`
  -- says. Blank lines before a JSON line change nothing, up to 16 of them.
  pub handle_connection-answer_all :
      (n : ℕ) (codec : IpcWire) (bytes : List ℕ) (cs : List IpcCommand) (v : Server)
      (out : writer.Out)
      → 0 < n
      → Sent f (detect codec (take n bytes)) bytes cs
      → handle_connection f writer w (some n) codec bytes v out
        ≡ some (answer_all (detect codec (take n bytes)) cs v out)
  unfolding handle_connection
  handle_connection-answer_all zero codec bytes cs v out some_bytes sent = absurd (omega arith)
  handle_connection-answer_all (suc n) codec [] cs v out some_bytes sent =
      sym (serve_commands-nil _ v out) ∙ serve_commands-Sent 1 sent (omega arith) v out
  handle_connection-answer_all (suc n) codec (b ∷ bytes) cs v out some_bytes sent =
      let open_still : (length (take (suc n) (b ∷ bytes)) == 0) ≡ false = ground arith in
      rw open_still (serve_commands-Sent _ sent (omega arith) v out)
