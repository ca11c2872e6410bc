-- ===== src/Request/Chunked/Panic.antt =====
-- Where `decode_chunked` panics: a chunk that ends with the input, and a size near 2^64.
use localserver.Base.{
  ℕ, suc, ◌+◌, ◌<◌, ◌≤◌, ◌≡◌, ◌≢◌, sym, ap, ◌∙◌, List, [], ◌++◌, append-nil, arith, length,
  length-append, Outcome, panicked,
}
use localserver.Std.Text.{Bytes}
use localserver.Std.Number.{usize_bound}
use localserver.Std.Slice.{slice_from, slice}
use localserver.Request.Chunked.{crlf, decode_loop, decode_chunked, read_size, read_chunk}
use localserver.Request.Chunked.Encode.{hex, encode_chunks, payload, read_size-hex, decode_loop-hex}
use localserver.Request.Chunked.RoundTrip.{AllNonempty, decode_chunked-chunks}

-- A position past the end panics in the next round.
decode_loop-past :
    (fuel : ℕ) (source : Bytes) (pos : ℕ) (body : Bytes)
    → length source < pos
    → decode_loop (suc fuel) source pos body ≡ panicked
unfolding decode_loop read_size slice_from
decode_loop-past fuel source pos body h = ground arith

-- A body whose last chunk is not followed by its line end makes the parser panic: the position
-- steps over a line end that is not there.
pub decode_chunked-cut :
    (cs : List Bytes) (c : Bytes)
    → AllNonempty cs
    → c ≢ []
    → length (encode_chunks cs ++ (hex (length c) ++ (crlf ++ c))) < usize_bound
    → decode_chunked (encode_chunks cs ++ (hex (length c) ++ (crlf ++ c))) ≡ panicked
decode_chunked-cut cs c full more small =
    let (rest, e) = decode_chunked-chunks cs (hex (length c) ++ (crlf ++ c)) full small in
    let source : Bytes = encode_chunks cs ++ (hex (length c) ++ (crlf ++ c)) in
    let laid : encode_chunks cs ++ (hex (length c) ++ (crlf ++ (c ++ []))) ≡ source =
      ap (λ t. encode_chunks cs ++ (hex (length c) ++ (crlf ++ t))) (append-nil c) in
    let pos : ℕ = length (encode_chunks cs) + length (hex (length c)) + 2 + length c + 2 in
    e
    ∙ (λ i. decode_loop (suc (suc rest)) (sym laid i) (length (encode_chunks cs)) (payload cs))
    ∙ decode_loop-hex (encode_chunks cs) c [] (suc rest) (payload cs) (rw (append-nil c) small) more
    ∙ decode_loop-past rest _ pos (payload cs ++ c) (
        omega (
          arith,
          ap length laid,
          length-append (encode_chunks cs) (hex (length c) ++ (crlf ++ c)),
          length-append (hex (length c)) (crlf ++ c),
        ))

read_chunk-wraps :
    (source : Bytes) (start size : ℕ) (body : Bytes) (continue : ℕ → Bytes → Outcome Bytes)
    → start ≤ length source
    → start < usize_bound
    → size < usize_bound
    → usize_bound ≤ start + size
    → read_chunk source start size body continue ≡ panicked
unfolding read_chunk slice
read_chunk-wraps source start size body continue inside s n wraps = ground arith

decode_loop-wraps :
    (fuel : ℕ) (pre : Bytes) (n : ℕ) (t body : Bytes)
    → n < usize_bound
    → length pre + length (hex n) + 2 ≤ length (pre ++ (hex n ++ (crlf ++ t)))
    → length pre + length (hex n) + 2 < usize_bound
    → usize_bound ≤ length pre + length (hex n) + 2 + n
    → decode_loop (suc fuel) (pre ++ (hex n ++ (crlf ++ t))) (length pre) body ≡ panicked
unfolding decode_loop
decode_loop-wraps fuel pre n t body fits inside low wraps = rw (read_size-hex pre n t fits) (
    read_chunk-wraps (pre ++ (hex n ++ (crlf ++ t))) (length pre + length (hex n) + 2) n body
      (λ p b. decode_loop fuel (pre ++ (hex n ++ (crlf ++ t))) p b) inside low fits wraps)

-- So does a size that takes the position past 2^64: the sum wraps below the position, which
-- passes the test on the length, and the slice is refused.
pub decode_chunked-wraps :
    (cs : List Bytes) (n : ℕ) (t : Bytes)
    → AllNonempty cs
    → n < usize_bound
    → usize_bound ≤ length (encode_chunks cs) + length (hex n) + 2 + n
    → length (encode_chunks cs ++ (hex n ++ (crlf ++ t))) < usize_bound
    → decode_chunked (encode_chunks cs ++ (hex n ++ (crlf ++ t))) ≡ panicked
decode_chunked-wraps cs n t full fits wraps small =
    let (rest, e) = decode_chunked-chunks cs (hex n ++ (crlf ++ t)) full small in
    let start : ℕ = length (encode_chunks cs) + length (hex n) + 2 in
    let inside : start ≤ length (encode_chunks cs ++ (hex n ++ (crlf ++ t))) = omega (
      arith,
      length-append (encode_chunks cs) (hex n ++ (crlf ++ t)),
      length-append (hex n) (crlf ++ t),
    ) in
    e
    ∙ decode_loop-wraps (suc rest) (encode_chunks cs) n t (payload cs) fits inside (omega arith)
        wraps
