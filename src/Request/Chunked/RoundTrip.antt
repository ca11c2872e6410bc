-- ===== src/Request/Chunked/RoundTrip.antt =====
-- `decode_chunked` takes back what a client encodes, and where it panics.
use native.Mathlib.Nat.{zero-add, suc-add}
use localserver.Base.{
  ℕ, suc, ◌+◌, ◌-◌, ◌<◌, ◌≤◌, ◌≡◌, ◌≢◌, refl, sym, ◌∙◌, List, [], ◌∷◌, ◌++◌, append_assoc,
  append-nil, arith, length, length-append, done,
}
use localserver.Std.Text.{Bytes, chars}
use localserver.Std.Number.{usize_bound, to_string_radix}
use localserver.Request.Chunked.{crlf, decode_loop, decode_chunked, read_chunk}
use localserver.Request.Chunked.Encode.{
  hex, encode_chunk, encode_chunks, payload, read_size-hex, decode_loop-hex,
}

-- No chunk is empty: an empty one would end the body.
abbrev pub AllNonempty : List Bytes → Type 0
AllNonempty [] = Unit
AllNonempty (c ∷ cs) = (c ≢ []) × AllNonempty cs

length-encode_chunk :
    (c : Bytes) → length (encode_chunk c) ≡ length (hex (length c)) + 2 + length c + 2
unfolding encode_chunk
length-encode_chunk c =
    omega (arith, length-append (hex (length c)) (crlf ++ (c ++ crlf)), length-append c crlf)

-- A round takes one encoded chunk, whatever stands before and behind it.
decode_loop-chunk :
    (fuel : ℕ) (source pre c tail body : Bytes) (pos : ℕ)
    → source ≡ pre ++ (encode_chunk c ++ tail)
    → pos ≡ length pre
    → length source < usize_bound
    → c ≢ []
    → decode_loop (suc fuel) source pos body
      ≡ decode_loop fuel source (pos + length (encode_chunk c)) (body ++ c)
decode_loop-chunk fuel source pre c tail body pos e at small full =
    let laid : source ≡ pre ++ (hex (length c) ++ (crlf ++ (c ++ (crlf ++ tail)))) =
      e ∙ unfold encode_chunk in simp append_assoc in
    let next : length pre + length (hex (length c)) + 2 + length c + 2
        ≡ pos + length (encode_chunk c) =
      omega (arith, length-encode_chunk c) in
    (λ i. decode_loop (suc fuel) (laid i) (at i) body)
    ∙ decode_loop-hex pre c (crlf ++ tail) fuel body (rw laid at small) full
    ∙ (λ i. decode_loop fuel (sym laid i) (next i) (body ++ c))

-- The loop takes encoded chunks one by one.
decode_loop-chunks :
    (cs : List Bytes) (fuel : ℕ) (source pre tail body : Bytes) (pos : ℕ)
    → source ≡ pre ++ (encode_chunks cs ++ tail)
    → pos ≡ length pre
    → length source < usize_bound
    → AllNonempty cs
    → decode_loop (length cs + fuel) source pos body
      ≡ decode_loop fuel source (pos + length (encode_chunks cs)) (body ++ payload cs)
unfolding encode_chunks
decode_loop-chunks [] fuel source pre tail body pos e at small full =
    λ i. decode_loop (zero-add fuel i) source (unchanged i) (sym (append-nil body) i)
  where
    unchanged : pos ≡ pos + 0
    unchanged = omega arith
decode_loop-chunks (c ∷ cs) fuel source pre tail body pos e at small (first, full) =
    let here : source ≡ pre ++ (encode_chunk c ++ (encode_chunks cs ++ tail)) =
      e ∙ simp append_assoc in
    let later : source ≡ (pre ++ encode_chunk c) ++ (encode_chunks cs ++ tail) =
      e ∙ simp append_assoc in
    let moved : pos + length (encode_chunk c) ≡ length (pre ++ encode_chunk c) =
      omega (arith, length-append pre (encode_chunk c)) in
    let total : pos + length (encode_chunk c) + length (encode_chunks cs)
        ≡ pos + length (encode_chunks (c ∷ cs)) =
      omega (arith, length-append (encode_chunk c) (encode_chunks cs)) in
    (λ i. decode_loop (suc-add (length cs) fuel i) source pos body)
    ∙ decode_loop-chunk (length cs + fuel) source pre c (encode_chunks cs ++ tail) body pos here at
        small first
    ∙ decode_loop-chunks cs fuel source (pre ++ encode_chunk c) tail (body ++ c)
        (pos + length (encode_chunk c)) later moved small full
    ∙ (λ i. decode_loop fuel source (total i) (append_assoc body c (payload cs) i))

length-encode_chunks : (cs : List Bytes) → length cs ≤ length (encode_chunks cs)
unfolding encode_chunks
length-encode_chunks [] = omega arith
length-encode_chunks (c ∷ cs) = omega (
  arith,
  length-encode_chunks cs,
  length-append (encode_chunk c) (encode_chunks cs),
  length-encode_chunk c,
)

-- Behind encoded chunks the loop stands at the tail, with their bytes and two rounds in hand.
pub decode_chunked-chunks :
    (cs : List Bytes) (tail : Bytes)
    → AllNonempty cs
    → length (encode_chunks cs ++ tail) < usize_bound
    → (fuel : ℕ) × (decode_chunked (encode_chunks cs ++ tail)
        ≡ decode_loop
            (suc (suc fuel))
            (encode_chunks cs ++ tail)
            (length (encode_chunks cs))
            (payload cs))
unfolding decode_chunked
decode_chunked-chunks cs tail full small =
    let source : Bytes = encode_chunks cs ++ tail in
    let fuel : ℕ = length source - length cs in
    let rounds : length source + 2 ≡ length cs + suc (suc fuel) =
      omega (arith, length-encode_chunks cs, length-append (encode_chunks cs) tail) in
    (
      fuel,
      (λ i. decode_loop (rounds i) source 0 [])
          ∙ decode_loop-chunks cs (suc (suc fuel)) source [] tail [] 0 refl refl small full
          ∙ (λ i.
              decode_loop (suc (suc fuel)) source (zero-add (length (encode_chunks cs)) i)
                (payload cs)),
    )

-- The last chunk, of size 0.
abbrev pub last_chunk : Bytes
last_chunk = chars "0\r\n"

decode_loop-last :
    (fuel : ℕ) (pre trailer body : Bytes)
    → decode_loop (suc fuel) (pre ++ (last_chunk ++ trailer)) (length pre) body ≡ done body
unfolding decode_loop to_string_radix read_chunk
decode_loop-last fuel pre trailer body = rw (read_size-hex pre 0 trailer (omega arith))

-- A body that was sent in chunks, none of them empty, is decoded to what the chunks carried; the
-- trailer behind the last chunk is not looked at.
pub decode_chunked-encode_chunks :
    (cs : List Bytes) (trailer : Bytes)
    → AllNonempty cs
    → length (encode_chunks cs ++ (last_chunk ++ trailer)) < usize_bound
    → decode_chunked (encode_chunks cs ++ (last_chunk ++ trailer)) ≡ done (payload cs)
decode_chunked-encode_chunks cs trailer full small =
    let (fuel, e) = decode_chunked-chunks cs (last_chunk ++ trailer) full small in
    e ∙ decode_loop-last (suc fuel) (encode_chunks cs) trailer (payload cs)
