-- ===== src/Request/Chunked/Total.antt =====
-- `decode_chunked` always comes to an end, and its result is no longer than its input.
use localserver.Base.{
  ℕ, zero, suc, ◌+◌, ◌-◌, ◌≤◌, ◌<◌, ◌≡◌, ◌≢◌, [], arith, length, done, out_of_fuel, length-append,
  ◌++◌, inl, inr, >>=-eq-out_of_fuel, >>=-eq-done, ap,
}
use localserver.Std.Text.{Bytes}
use localserver.Request.Chunked.{decode_loop, decode_chunked, read_size}
use localserver.Request.Chunked.Steps.{
  read_size-bounds, read_size-finishes, read_chunk-continues, read_chunk-done,
}

decode_loop-finishes :
    (fuel : ℕ) (source : Bytes) (pos : ℕ) (body : Bytes)
    → length source + 1 - pos < fuel
    → decode_loop fuel source pos body ≢ out_of_fuel
unfolding decode_loop
decode_loop-finishes zero source pos body h e = elim h [ ]
decode_loop-finishes (suc fuel) source pos body h e =
    elim (>>=-eq-out_of_fuel (read_size source pos) _ e) [
      | inl stuck ↦ read_size-finishes source pos stuck
      | inr ((line_end, size), read, later) ↦
          let bound : pos + line_end ≤ length source = read_size-bounds source pos read in
          let (b, again) =
            read_chunk-continues source (pos + line_end + 2) size body
              (λ p b. decode_loop fuel source p b) later in
          decode_loop-finishes fuel source (pos + line_end + 2 + size + 2) b (omega arith) again
    ]

-- The loop comes to an end on every input: it returns, refuses or panics.
pub decode_chunked-finishes : (source : Bytes) → decode_chunked source ≢ out_of_fuel
unfolding decode_chunked
decode_chunked-finishes source = decode_loop-finishes (length source + 2) source 0 [] (omega arith)

decode_loop-length :
    (fuel : ℕ) (source : Bytes) (pos : ℕ) (body : Bytes) {b : Bytes}
    → decode_loop fuel source pos body ≡ done b
    → length b ≤ length body + (length source - pos)
unfolding decode_loop
decode_loop-length zero source pos body e = cc
decode_loop-length (suc fuel) source pos body e =
    let ((line_end, size), read, later) = >>=-eq-done (read_size source pos) _ e in
    elim (read_chunk-done source (pos + line_end + 2) size body (λ p b. decode_loop fuel source p b)
      later) [
        | inl last ↦ omega (arith, ap length last)
        | inr (chunk, inside, small, again) ↦
            let ih =
              decode_loop-length fuel source (pos + line_end + 2 + size + 2) (body ++ chunk)
                again in
            omega (arith, length-append body chunk)
      ]

-- A decoded body is no longer than the bytes it was decoded from.
pub length-decode_chunked :
    (source : Bytes) {body : Bytes}
    → decode_chunked source ≡ done body
    → length body ≤ length source
unfolding decode_chunked
length-decode_chunked source e = omega (arith, decode_loop-length (length source + 2) source 0 [] e)
