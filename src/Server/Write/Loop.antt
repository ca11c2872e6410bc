-- ===== src/Server/Write/Loop.antt =====
-- The loop of writes: what it hands over, and that it ends.
use mathlib.Core.Path.{subst}
use localserver.Base.{
  ℕ, zero, suc, ◌+◌, ◌-◌, ◌≤◌, ◌<◌, ◌≡◌, ◌≢◌, refl, sym, ◌∙◌, [], ◌∷◌, ◌++◌, arith, inl, inr,
  length, take, drop, length-drop, take-append-drop, append_assoc, Outcome, done, out_of_fuel,
  >>=-eq-done, >>=-eq-out_of_fuel,
}
use localserver.Std.Text.{Bytes}
use localserver.Std.Keys.{number_key}
use localserver.Server.{}
use localserver.Server.Write.{
  Socket, Wrote, accepted, would_block, failed, Ending, complete, drain, write_loop,
}

pub drain-done :
    (n : ℕ) (bytes : Bytes) {rest : Bytes}
    → drain n bytes ≡ done rest
    → (n ≤ length bytes) × (drop n bytes ≡ rest)
unfolding drain
drain-done n bytes e = ground arith

drain-finishes : (n : ℕ) (bytes : Bytes) → drain n bytes ≢ out_of_fuel
unfolding drain
drain-finishes n bytes e = ground arith

-- A loop that stops at once.
stopped :
    {was how : Ending} {bytes out left : Bytes}
    → ◌≡◌ {A = Outcome (Ending × Bytes × Bytes)} (done (was, [], bytes)) (done (how, out, left))
    → was ≢ complete
    → (out ++ left ≡ bytes) × (how ≡ complete → left ≡ [])
stopped {was} {how} {bytes} {out} {left} e running =
    let out_is : [] ≡ out = cc in
    let left_is : bytes ≡ left = cc in
    (subst (λ x. x ++ left ≡ bytes) out_is (sym left_is), λ c. absurd (running (cc (e, c))))

module _ (socket : Socket) where
  -- The bytes taken and the bytes left are the bytes there were.
  pub write_loop-splits :
      (fuel i : ℕ) (bytes : Bytes) {how : Ending} {out left : Bytes}
      → write_loop socket fuel i bytes ≡ done (how, out, left)
      → (out ++ left ≡ bytes) × (how ≡ complete → left ≡ [])
  unfolding write_loop
  write_loop-splits zero i bytes e = cc
  write_loop-splits (suc fuel) i [] e = (cc, λ h. cc)
  write_loop-splits (suc fuel) i (b ∷ bytes) {how} {out} {left} e =
      by_write (λ rest h o l looped. write_loop-splits fuel (i + 1) rest looped)
        (socket i (length (b ∷ bytes))) refl
    where
      by_write :
          ((rest : Bytes) (h : Ending) (o l : Bytes)
            → write_loop socket fuel (i + 1) rest ≡ done (h, o, l)
            → (o ++ l ≡ rest) × (h ≡ complete → l ≡ []))
          → (w : Wrote) → socket i (length (b ∷ bytes)) ≡ w
          → (out ++ left ≡ b ∷ bytes) × (how ≡ complete → left ≡ [])
      by_write ih would_block q = stopped (rw (write_loop, q) at e) (λ h. cc)
      by_write ih failed q = stopped (rw (write_loop, q) at e) (λ h. cc)
      by_write ih (accepted zero) q = stopped (rw (write_loop, q) at e) (λ h. cc)
      by_write ih (accepted (suc n)) q =
          let (rest, drained, more) =
            >>=-eq-done (drain (suc n) (b ∷ bytes)) _ (rw (write_loop, q) at e) in
          let ((h, o, l), looped, same) =
            >>=-eq-done (write_loop socket fuel (i + 1) rest) _ more in
          let (split, end) = ih rest h o l looped in
          let (fits, dropped) = drain-done (suc n) (b ∷ bytes) drained in
          let out_is : take (suc n) (b ∷ bytes) ++ o ≡ out = cc in
          let left_is : l ≡ left = cc in
          let how_is : h ≡ how = cc in
          (
            subst (λ x. x ++ left ≡ b ∷ bytes) out_is
                (subst (λ x. (take (suc n) (b ∷ bytes) ++ o) ++ x ≡ b ∷ bytes) left_is
                  (append_assoc (take (suc n) (b ∷ bytes)) o l
                    ∙ rw (split, sym dropped) (take-append-drop (suc n) (b ∷ bytes)))),
            λ c. sym left_is ∙ end (how_is ∙ c),
          )

  pub write_loop-finishes :
      (fuel i : ℕ) (bytes : Bytes)
      → length bytes < fuel
      → write_loop socket fuel i bytes ≢ out_of_fuel
  unfolding write_loop
  write_loop-finishes zero i bytes h e = omega arith
  write_loop-finishes (suc fuel) i [] h e = cc
  write_loop-finishes (suc fuel) i (b ∷ bytes) h e =
      by_write (λ rest l. write_loop-finishes fuel (i + 1) rest l) (socket i (length (b ∷ bytes)))
        refl
    where
      by_write :
          ((rest : Bytes) → length rest < fuel → write_loop socket fuel (i + 1) rest ≢ out_of_fuel)
          → (w : Wrote) → socket i (length (b ∷ bytes)) ≢ w
      by_write ih would_block q = let e1 = rw (write_loop, q) at e in cc
      by_write ih failed q = let e1 = rw (write_loop, q) at e in cc
      by_write ih (accepted zero) q = let e1 = rw (write_loop, q) at e in cc
      by_write ih (accepted (suc n)) q =
          elim (>>=-eq-out_of_fuel (drain (suc n) (b ∷ bytes)) _ (rw (write_loop, q) at e)) [
            | inl stuck ↦ drain-finishes (suc n) (b ∷ bytes) stuck
            | inr (rest, drained, more) ↦
                let (fits, dropped) = drain-done (suc n) (b ∷ bytes) drained in
                let shorter : length rest ≡ length (b ∷ bytes) - suc n =
                  subst (λ x. length x ≡ length (b ∷ bytes) - suc n) dropped
                    (length-drop (suc n) (b ∷ bytes)) in
                elim (>>=-eq-out_of_fuel (write_loop socket fuel (i + 1) rest) _ more) [
                  | inl later ↦ ih rest (omega arith) later
                  | inr (x, looped, end) ↦ cc
                ]
          ]
