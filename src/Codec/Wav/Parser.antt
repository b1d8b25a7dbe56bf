-- ===== src/Codec/Wav/Parser.antt =====
-- crates/around-codec-wav/src/lib.rs: reading a header step by step, with the state of the reader
-- passed on and the first error kept.
use around.Base.{ℕ, ◌++◌, List, take, replicate, Option, none, some, Result, ok, err}
use around.Base.Int.{pos}
pub use around.Base.Stateful.{go_on, ◌>>=◌, ◌>>◌, return, demand}
use around.Codec.Io.{Reader}

-- The errors of `parse_header`, without their texts; `out_of_fuel` is the model's own.
pub data HeaderError : Type 0 where
  read_riff not_riff read_size read_wave not_wave read_chunk_len read_fmt skip_fmt skip_chunk :
      HeaderError
  unsupported_format unsupported_bit_depth unsupported_channels : ℕ → HeaderError
  no_fmt no_data out_of_fuel : HeaderError

abbrev pub Parser : Type 0 → Type 0 → Type 0
Parser C A = C → Result HeaderError A × C

-- A buffer of `n` zeros after `bytes` were written at its start.
unfoldable pub filled : ℕ → List ℕ → List ℕ
filled n bytes = take n (bytes ++ replicate n 0)

abbrev pub buffered :
    {C : Type 0} → ℕ → HeaderError → Option (List ℕ) × C → Result HeaderError (List ℕ) × C
buffered n e (some bytes, c) = (ok (filled n bytes), c)
buffered n e (none, c) = (err e, c)

abbrev pub moved : {C : Type 0} → HeaderError → Option ℕ × C → Result HeaderError (Unit {0}) × C
moved e (some at, c) = (ok tt, c)
moved e (none, c) = (err e, c)

module _ (r : Reader) where
  -- `let mut buf = [0; n]; tmp.read_bytes(&mut buf)?`: a short read leaves zeros.
  unfoldable pub read_bytes : ℕ → HeaderError → Parser r.Context (List ℕ)
  read_bytes n e c = buffered n e (r.read n c)

  -- `tmp.seek_bytes(n, 1)?`
  unfoldable pub skip : ℕ → HeaderError → Parser r.Context (Unit {0})
  skip n e c = moved e (r.seek (pos n) 1 c)
