-- ===== src/Request/Chunked/Steps.antt =====
-- What one round of `decode_chunked` does: where it reads, and where it leaves the position.
use localserver.Base.{
  ℕ, ◌+◌, ◌≤◌, ◌≡◌, ◌≢◌, ◌++◌, arith, length, Outcome, done, out_of_fuel, ◌>>=◌, ◌%◌, ltb, ◌==◌,
  if◌then◌else◌, refused, ◌⊎◌, inl, inr, Bool-cases, panicked, refl,
}
use localserver.Std.Text.{Bytes}
use localserver.Std.Number.{usize_bound}
use localserver.Std.Slice.{slice_from, slice, length-slice}
use localserver.Request.Chunked.{read_size, read_chunk}

pub read_size-bounds :
    (source : Bytes) (pos : ℕ) {r : ℕ × ℕ}
    → read_size source pos ≡ done r
    → pos + r.0 ≤ length source
unfolding read_size slice_from slice
read_size-bounds source pos h = ground arith

pub read_size-finishes : (source : Bytes) (pos : ℕ) → read_size source pos ≢ out_of_fuel
unfolding read_size slice_from slice
read_size-finishes source pos h = ground arith

module _ (source : Bytes) (start size : ℕ) (body : Bytes)
    (continue : ℕ → Bytes → Outcome Bytes) where
  abbrev end : ℕ
  end = (start + size) % usize_bound

  -- The round, as it depends on the slice.
  abbrev round : Outcome Bytes → Outcome Bytes
  round o =
      if size == 0
      then done body
      else if ltb (length source) end
      then refused
      else (o >>= λ chunk. continue (start + size + 2) (body ++ chunk))

  round-continues :
      (o : Outcome Bytes)
      → round o ≡ out_of_fuel
      → o ≢ out_of_fuel
      → (b : Bytes) × (continue (start + size + 2) b ≡ out_of_fuel)
  round-continues (done chunk) k fueled = (body ++ chunk, ground arith)
  round-continues refused k fueled = absurd (ground arith)
  round-continues panicked k fueled = absurd (ground arith)
  round-continues out_of_fuel k fueled = absurd (fueled refl)

  -- Only the rest of the loop can lack fuel.
  pub read_chunk-continues :
      read_chunk source start size body continue ≡ out_of_fuel
      → (b : Bytes) × (continue (start + size + 2) b ≡ out_of_fuel)
  unfolding read_chunk
  read_chunk-continues h = round-continues (slice source start end) h (unfold slice in ground arith)

  round-done :
      (o : Outcome Bytes) {b : Bytes}
      → slice source start end ≡ o
      → round o ≡ done b
      → (b ≡ body)
        ⊎ ((chunk : Bytes) × (start + length chunk ≤ length source)
            × (length chunk ≤ size)
            × (continue (start + size + 2) (body ++ chunk) ≡ done b))
  round-done (done chunk) e k = elim (Bool-cases (size == 0)) [
    | inl last ↦ inl (ground arith)
    | inr more ↦
        let bounds = length-slice source start end e in
        inr (chunk, omega arith, omega arith, ground arith)
  ]
  round-done refused e k = inl (ground arith)
  round-done panicked e k = inl (ground arith)
  round-done out_of_fuel e k = inl (ground arith)

  -- A round that ends well returns the body, or goes on behind a chunk within bounds.
  pub read_chunk-done :
      {b : Bytes}
      → read_chunk source start size body continue ≡ done b
      → (b ≡ body)
        ⊎ ((chunk : Bytes) × (start + length chunk ≤ length source)
            × (length chunk ≤ size)
            × (continue (start + size + 2) (body ++ chunk) ≡ done b))
  unfolding read_chunk
  read_chunk-done h = round-done (slice source start end) refl h
