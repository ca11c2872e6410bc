-- ===== src/Std/Slice.antt =====
-- Slices of byte vectors: `&v[lo..]` and `&v[lo..hi]` panic out of bounds.
use localserver.Base.{
  ℕ, ◌+◌, ◌-◌, ◌≤◌, ◌≡◌, ap, ◌&&◌, List, ◌++◌, arith, leb, if◌then◌else◌, length, take, drop,
  length-append, take-append, drop-append, Outcome, done, panicked, le→leb, length-take,
  length-drop,
}

module _ {ℓ} {A : Type ℓ} where
  unfoldable pub slice_from : List A → ℕ → Outcome (List A)
  slice_from v lo = if leb lo (length v) then done (drop lo v) else panicked

  unfoldable pub slice : List A → ℕ → ℕ → Outcome (List A)
  slice v lo hi =
      if leb lo hi && leb hi (length v) then done (take (hi - lo) (drop lo v)) else panicked

  pub slice_from-append : (a b : List A) → slice_from (a ++ b) (length a) ≡ done b
  unfolding slice_from
  slice_from-append a b =
      rw (le→leb (length a) (length (a ++ b)) (omega (arith, length-append a b)))
        (ap done (drop-append a b))

  pub slice-append :
      (a b c : List A) → slice (a ++ (b ++ c)) (length a) (length a + length b) ≡ done b
  unfolding slice
  slice-append a b c =
      let in_bounds : length a + length b ≤ length (a ++ (b ++ c)) =
        omega (arith, length-append a (b ++ c), length-append b c) in
      let size : length a + length b - length a ≡ length b = omega arith in
      rw (le→leb (length a) (length a + length b) (omega arith), le→leb _ _ in_bounds)
        (rw (drop-append a (b ++ c), size) (ap done (take-append b c)))

  -- What a slice that does not panic holds.
  pub length-slice :
      (v : List A) (lo hi : ℕ) {w : List A}
      → slice v lo hi ≡ done w
      → (lo ≤ hi) × (hi ≤ length v) × (length w ≡ hi - lo)
  unfolding slice
  length-slice v lo hi h = ground (arith, length-take (hi - lo) (drop lo v), length-drop lo v)
