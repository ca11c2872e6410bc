-- ===== src/Server/Write/Taken.antt =====
-- What sockets take of the bytes that are offered to them, and how an event ends: told of the
-- answers of the sockets alone.
use mathlib.Core.Path.{subst}
use localserver.Base.{
  sym, ℕ, zero, suc, ◌+◌, ◌≡◌, ◌≢◌, refl, ◌⊎◌, inl, inr, List, [], ◌∷◌, ◌++◌, length, take, drop,
  Outcome, done, >>=-eq-done,
}
use localserver.Std.Text.{Bytes}
use localserver.Server.Write.{
  Socket, Wrote, accepted, would_block, failed, Ending, complete, blocked, broken, drain,
  write_loop,
}
use localserver.Server.Write.Loop.{drain-done}

-- The writes of a socket from one number to another, with the bytes offered before them, the bytes
-- that it takes in them, and those that are left: each write takes a byte or more of what is left.
pub data Takes (socket : Socket) : ℕ → Bytes → ℕ → Bytes → Bytes → Type 0 where
  no_write : {i : ℕ} {bytes : Bytes} → Takes socket i bytes i [] bytes
  one_write :
      {i j n : ℕ} {bytes out left : Bytes}
      → socket i (length bytes) ≡ accepted (suc n)
      → Takes socket (i + 1) (drop (suc n) bytes) j out left
      → Takes socket i bytes j (take (suc n) bytes ++ out) left

-- Why the writes stop at this one: nothing is left; or the socket would block; or the write fails or
-- takes nothing.
abbrev pub Stops : Socket → ℕ → Bytes → Ending → Type 0
Stops socket j left complete = left ≡ []
Stops socket j left blocked = (left ≢ []) × (socket j (length left) ≡ would_block)
Stops socket j left broken =
    (left ≢ []) × ((socket j (length left) ≡ failed) ⊎ (socket j (length left) ≡ accepted 0))

-- One event of a socket.
abbrev pub SocketEvent : Socket → Bytes → Ending → Bytes → Bytes → Type 0
SocketEvent socket bytes how out left =
    (j : ℕ) × Takes socket 0 bytes j out left × Stops socket j left how

-- Events one after the other, until nothing is left or a write fails.
pub data Events : List Socket → Bytes → Ending → Bytes → Bytes → Type 0 where
  quiet : {bytes : Bytes} → Events [] bytes blocked [] bytes
  goes_on :
      {socket : Socket} {sockets : List Socket} {bytes out mid more left : Bytes} {how : Ending}
      → SocketEvent socket bytes blocked out mid
      → Events sockets mid how more left
      → Events (socket ∷ sockets) bytes how (out ++ more) left
  ends :
      {socket : Socket} {sockets : List Socket} {bytes out left : Bytes} {how : Ending}
      → SocketEvent socket bytes how out left
      → how ≢ blocked
      → Events (socket ∷ sockets) bytes how out left

module _ (socket : Socket) where
  at_once :
      (i : ℕ) (bytes : Bytes) (was : Ending) {how : Ending} {out left : Bytes}
      → ◌≡◌ {A = Outcome (Ending × Bytes × Bytes)} (done (was, [], bytes)) (done (how, out, left))
      → Stops socket i bytes was
      → (j : ℕ) × Takes socket i bytes j out left × Stops socket j left how
  at_once i bytes was {how} {out} {left} e why =
      let same : (was, [], bytes) ≡ (how, out, left) = cc in
      subst
        (λ (x : Ending × Bytes × Bytes).
          (j : ℕ) × Takes socket i bytes j x.1 x.2 × Stops socket j x.2 x.0)
        same (i, no_write, why)

  pub write_loop-Takes :
      (fuel i : ℕ) (bytes : Bytes) {how : Ending} {out left : Bytes}
      → write_loop socket fuel i bytes ≡ done (how, out, left)
      → (j : ℕ) × Takes socket i bytes j out left × Stops socket j left how
  unfolding write_loop
  write_loop-Takes zero i bytes e = cc
  write_loop-Takes (suc fuel) i [] e = at_once i [] complete e refl
  write_loop-Takes (suc fuel) i (b ∷ bytes) {how} {out} {left} e =
      by_write (λ rest h o l looped. write_loop-Takes fuel (i + 1) rest looped)
        (socket i (length (b ∷ bytes))) refl
    where
      by_write :
          ((rest : Bytes) (h : Ending) (o l : Bytes)
            → write_loop socket fuel (i + 1) rest ≡ done (h, o, l)
            → (j : ℕ) × Takes socket (i + 1) rest j o l × Stops socket j l h)
          → (w : Wrote) → socket i (length (b ∷ bytes)) ≡ w
          → (j : ℕ) × Takes socket i (b ∷ bytes) j out left × Stops socket j left how
      by_write ih would_block q =
          at_once i (b ∷ bytes) blocked (rw (write_loop, q) at e) (λ h. cc, q)
      by_write ih failed q = at_once i (b ∷ bytes) broken (rw (write_loop, q) at e) (λ h. cc, inl q)
      by_write ih (accepted zero) q =
          at_once i (b ∷ bytes) broken (rw (write_loop, q) at e) (λ h. cc, inr q)
      by_write ih (accepted (suc n)) q =
          let (rest, drained, more) =
            >>=-eq-done (drain (suc n) (b ∷ bytes)) _ (rw (write_loop, q) at e) in
          let ((h, o, l), looped, same) =
            >>=-eq-done (write_loop socket fuel (i + 1) rest) _ more in
          let (j, taken, why) = ih rest h o l looped in
          let (fits, dropped) = drain-done (suc n) (b ∷ bytes) drained in
          let all_same : (h, take (suc n) (b ∷ bytes) ++ o, l) ≡ (how, out, left) = cc in
          subst
            (λ (x : Ending × Bytes × Bytes).
              (k : ℕ) × Takes socket i (b ∷ bytes) k x.1 x.2 × Stops socket k x.2 x.0)
            all_same
            (j, one_write q (subst (λ r. Takes socket (i + 1) r j o l) (sym dropped) taken), why)
