-- ===== src/Request/Chunked.antt =====
-- src/request.rs: `decode_chunked`, the body of a request with `Transfer-Encoding: chunked`.
pub mod Encode
pub mod Steps
pub mod Total
pub mod RoundTrip
pub mod Panic
use localserver.Base.{
  ℕ, zero, suc, ◌+◌, ◌%◌, [], ◌++◌, ltb, ◌==◌, if◌then◌else◌, length, Outcome, done, refused,
  out_of_fuel, question, ◌>>=◌,
}
use localserver.Std.Text.{Bytes, chars, position, trim}
use localserver.Std.Utf8.{from_utf8}
use localserver.Std.Number.{from_str_radix, usize_bound}
use localserver.Std.Slice.{slice_from, slice}

abbrev pub crlf : Bytes
crlf = chars "\r\n"

-- The size line at `pos`: where it ends, and the size.
unfoldable read_size : Bytes → ℕ → Outcome (ℕ × ℕ)
read_size source pos = do
  rest ← slice_from source pos
  line_end ← question (position crlf rest)
  size_bytes ← slice source pos (pos + line_end)
  size_str ← question (from_utf8 size_bytes)
  chunk_size ← question (from_str_radix 16 usize_bound (trim size_str))
  done (line_end, chunk_size)

-- A round of the loop: the body so far is returned, or the chunk at `start` is taken and
-- `continue` is the rest of the loop. `pos + chunk_size` wraps in a release build (a debug build
-- panics there), and the slice that follows is checked.
unfoldable read_chunk : Bytes → ℕ → ℕ → Bytes → (ℕ → Bytes → Outcome Bytes) → Outcome Bytes
read_chunk source start chunk_size body continue =
    let end = (start + chunk_size) % usize_bound in
    if chunk_size == 0
    then done body
    else if ltb (length source) end
    then refused
    else do chunk ← slice source start end; continue (start + chunk_size + 2) (body ++ chunk)

-- One round for each unit of fuel.
unfoldable decode_loop : ℕ → Bytes → ℕ → Bytes → Outcome Bytes
unfolding read_size read_chunk
decode_loop zero source pos body = out_of_fuel
decode_loop (suc fuel) source pos body = do
  (line_end, chunk_size) ← read_size source pos
  read_chunk source (pos + line_end + 2) chunk_size body (λ p b. decode_loop fuel source p b)

-- Every round moves at least two bytes on, so a round for each byte is enough.
unfoldable pub decode_chunked : Bytes → Outcome Bytes
unfolding decode_loop
decode_chunked source = decode_loop (length source + 2) source 0 []
