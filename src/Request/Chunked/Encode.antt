-- ===== src/Request/Chunked/Encode.antt =====
-- The chunked encoding that a client writes, and what a round of `decode_chunked` reads of it.
use native.Mathlib.Nat.{mod-eq_of_lt}
use localserver.Base.{
  ℕ, suc, ◌+◌, ◌%◌, ◌<◌, ◌≤◌, ◌≡◌, ◌≢◌, refl, ◌∙◌, true, false, List, [], ◌∷◌, ◌++◌, append_assoc,
  arith, all, length, length-append, ◌==◌, Outcome, done, le→ltb_false,
}
use localserver.Std.Text.{Bytes, Text, is_whitespace}
use localserver.Std.Text.Trim.{trim-none, none_match}
use localserver.Std.Text.Position.{position-append, without}
use localserver.Std.Utf8.{from_utf8-ascii, is_ascii}
use localserver.Std.Number.{
  to_string_radix, to_string_radix-hex, from_str_radix-to_string, is_hex, usize_bound,
}
use localserver.Std.Slice.{slice, slice_from-append, slice-append}
use localserver.Request.Chunked.{crlf, read_size, read_chunk, decode_loop}

abbrev pub hex : ℕ → Bytes
hex = to_string_radix 16

unfoldable pub encode_chunk : Bytes → Bytes
encode_chunk c = hex (length c) ++ (crlf ++ (c ++ crlf))

unfoldable pub encode_chunks : List Bytes → Bytes
unfolding encode_chunk
encode_chunks [] = []
encode_chunks (c ∷ cs) = encode_chunk c ++ encode_chunks cs

-- The bytes that the chunks carry.
abbrev pub payload : List Bytes → Bytes
payload [] = []
payload (c ∷ cs) = c ++ payload cs

hex-plain :
    (s : Text)
    → all is_hex s ≡ true
    → (without b'\r' s ≡ true) × (none_match is_whitespace s ≡ true) × (is_ascii s ≡ true)
unfolding is_whitespace
hex-plain [] h = (refl, refl, refl)
hex-plain (c ∷ s) h = ground (arith, hex-plain s)

-- A size line is read as the size that it was written for.
pub read_size-hex :
    (pre : Bytes) (n : ℕ) (t : Bytes)
    → n < usize_bound
    → read_size (pre ++ (hex n ++ (crlf ++ t))) (length pre) ≡ done (length (hex n), n)
unfolding read_size
read_size-hex pre n t h =
    let plain =
      hex-plain (hex n) (to_string_radix-hex 16 usize_bound (omega arith, omega arith) n) in
    rw (
      slice_from-append pre (hex n ++ (crlf ++ t)),
      position-append (hex n) b'\r' (b'\n' ∷ []) t plain.0,
      slice-append pre (hex n) (crlf ++ t),
      from_utf8-ascii (hex n) plain.2,
      trim-none (hex n) plain.1,
      from_str_radix-to_string 16 usize_bound (omega arith, omega arith) n h,
    )

length-nonempty : (c : Bytes) → c ≢ [] → (length c == 0) ≡ false
length-nonempty [] full = absurd (full refl)
length-nonempty (b ∷ c) full = ground arith

module _ (pre c t : Bytes) where
  abbrev source : Bytes
  source = pre ++ (hex (length c) ++ (crlf ++ (c ++ t)))

  -- Where the chunk begins, behind its size line.
  abbrev chunk_start : ℕ
  chunk_start = length pre + length (hex (length c)) + 2

  length-source : length source ≡ chunk_start + length c + length t
  length-source = omega (
    arith,
    length-append pre (hex (length c) ++ (crlf ++ (c ++ t))),
    length-append (hex (length c)) (crlf ++ (c ++ t)),
    length-append c t,
  )

  slice-chunk : slice source chunk_start (chunk_start + length c) ≡ done c
  slice-chunk =
      let front : Bytes = pre ++ (hex (length c) ++ crlf) in
      let size : chunk_start ≡ length front =
        omega (
          arith,
          length-append pre (hex (length c) ++ crlf),
          length-append (hex (length c)) crlf,
        ) in
      let same : source ≡ front ++ (c ++ t) = simp append_assoc in
      (λ i. slice (same i) (size i) (size i + length c)) ∙ slice-append front c t

  -- A round takes the chunk and goes on behind it.
  pub read_chunk-hex :
      (body : Bytes) (continue : ℕ → Bytes → Outcome Bytes)
      → length source < usize_bound
      → c ≢ []
      → read_chunk source chunk_start (length c) body continue
        ≡ continue (chunk_start + length c + 2) (body ++ c)
  unfolding read_chunk
  read_chunk-hex body continue small full =
      let no_wrap : (chunk_start + length c) % usize_bound ≡ chunk_start + length c =
        mod-eq_of_lt (omega (arith, length-source)) in
      let inside : chunk_start + length c ≤ length source = omega (arith, length-source) in
      rw (
        length-nonempty c full,
        no_wrap,
        le→ltb_false (length source) (chunk_start + length c) inside,
        slice-chunk,
      )

  -- One round of the loop, on a chunk that is not empty.
  pub decode_loop-hex :
      (fuel : ℕ) (body : Bytes)
      → length source < usize_bound
      → c ≢ []
      → decode_loop (suc fuel) source (length pre) body
        ≡ decode_loop fuel source (chunk_start + length c + 2) (body ++ c)
  unfolding decode_loop
  decode_loop-hex fuel body small full =
      rw (read_size-hex pre (length c) (c ++ t) (omega (arith, length-source)))
        (read_chunk-hex body (λ p b. decode_loop fuel source p b) small full)
