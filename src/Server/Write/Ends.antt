-- ===== src/Server/Write/Ends.antt =====
-- How writes to a socket end, and the sockets that take no more bytes than they are offered.
use localserver.Base.{
  ℕ, zero, suc, ◌+◌, ◌≤◌, ◌<◌, ◌≡◌, ◌≢◌, refl, some, List, [], ◌∷◌, ◌++◌, arith, inl, inr, length,
  take, drop, length-drop, done, out_of_fuel, >>=-eq-out_of_fuel, Option-cases,
}
use localserver.Std.Text.{Bytes}
use localserver.Std.Map
use localserver.Std.Keys.{number_key}
use localserver.Handler.World.{FileSystem}
use localserver.Server.{State, sent}
use localserver.Server.Write.Loop.{write_loop-finishes}
use localserver.Server.Write.{
  Socket, Wrote, accepted, would_block, failed, Ending, drain, write_loop, finish_write,
  after_write, forget_time, handle_write, on_writable,
}
use localserver.Server.Write.Delivery.{Progress, on_writables, on_writables-Progress}

-- A socket takes no more bytes than it is offered.
pub record IsHonest (socket : Socket) : Type 0 where
  pub takes_no_more : (i offered n : ℕ) → socket i offered ≡ accepted n → n ≤ offered

abbrev pub AllHonest : List Socket → Type 0
AllHonest [] = Unit
AllHonest (socket ∷ sockets) = IsHonest socket × AllHonest sockets

drain-fits : (n : ℕ) (bytes : Bytes) → n ≤ length bytes → drain n bytes ≡ done (drop n bytes)
unfolding drain
drain-fits n bytes h = ground arith

module _ (socket : Socket) (honest : IsHonest socket) where
  write_loop-ends :
      (fuel i : ℕ) (bytes : Bytes)
      → length bytes < fuel
      → (x : Ending × Bytes × Bytes) × (write_loop socket fuel i bytes ≡ done x)
  unfolding write_loop
  write_loop-ends zero i bytes h = absurd (omega arith)
  write_loop-ends (suc fuel) i [] h = (_, refl)
  write_loop-ends (suc fuel) i (b ∷ bytes) h =
      by_write (λ rest l. write_loop-ends fuel (i + 1) rest l) (socket i (length (b ∷ bytes))) refl
    where
      by_write :
          ((rest : Bytes)
            → length rest < fuel
            → (x : Ending × Bytes × Bytes) × (write_loop socket fuel (i + 1) rest ≡ done x))
          → (w : Wrote) → socket i (length (b ∷ bytes)) ≡ w
          → (x : Ending × Bytes × Bytes) × (write_loop socket (suc fuel) i (b ∷ bytes) ≡ done x)
      by_write ih would_block q = ((Ending.blocked, [], b ∷ bytes), rw (write_loop, q) refl)
      by_write ih failed q = ((Ending.broken, [], b ∷ bytes), rw (write_loop, q) refl)
      by_write ih (accepted zero) q = ((Ending.broken, [], b ∷ bytes), rw (write_loop, q) refl)
      by_write ih (accepted (suc n)) q =
          let fits = honest.takes_no_more i (length (b ∷ bytes)) (suc n) q in
          let drained = drain-fits (suc n) (b ∷ bytes) fits in
          let ((how, out, left), looped) =
            ih (drop (suc n) (b ∷ bytes)) (omega (arith, length-drop (suc n) (b ∷ bytes))) in
          ((how, take (suc n) (b ∷ bytes) ++ out, left), rw (write_loop, q, drained, looped) refl)

module _ (fs : FileSystem) (fd : ℕ) where
  pub on_writable-ends :
      (socket : Socket) (st : State fs)
      → IsHonest socket
      → (after : State fs) × (on_writable fs fd socket st ≡ done after)
  unfolding on_writable handle_write
  on_writable-ends socket st honest = elim (Option-cases (Map.get st.write_buffers fd)) [
    | inl gone ↦
        (forget_time fs fd (finish_write fs fd st), rw (on_writable, handle_write, gone) refl)
    | inr (bytes, here) ↦
        let ((how, out, left), looped) =
          write_loop-ends socket honest (length bytes + 1) 0 bytes (omega arith) in
        (
          forget_time fs fd
              (after_write fs fd how left (record st { calls = st.calls ++ sent fd out ∷ [] })),
          rw (on_writable, handle_write, here, looped) refl,
        )
  ]

  on_writables-ends :
      (sockets : List Socket) (st : State fs)
      → AllHonest sockets
      → (after : State fs) × (on_writables fs fd sockets st ≡ done after)
  unfolding on_writables
  on_writables-ends [] st honest = (st, refl)
  on_writables-ends (socket ∷ sockets) st (h, honest) =
      elim (Option-cases (Map.get st.write_buffers fd)) [
        | inl gone ↦ (st, rw (on_writables, gone) refl)
        | inr (bytes, here) ↦
            let (mid, wrote) = on_writable-ends socket st h in
            let (after, later) = on_writables-ends sockets mid honest in
            (after, rw (on_writables, here, wrote) later)
      ]

  -- If sockets take no more bytes than they are offered, any events of one with bytes to write are
  -- handled to the end, and the bytes that it has taken since and those that are left are the bytes
  -- there were, in order. Each write took a byte or more of what was left. Either each event ended
  -- at a write that would block, and what is left still waits; or all is taken, and the socket was
  -- then shut down and closed; or a write failed or took nothing, and it was closed there.
  pub on_writables-delivers :
      (sockets : List Socket) (st : State fs) (bytes : Bytes)
      → AllHonest sockets
      → Map.get st.write_buffers fd ≡ some bytes
      → (after : State fs) × (on_writables fs fd sockets st ≡ done after)
        × Progress fs fd sockets st after bytes
  on_writables-delivers sockets st bytes honest here =
      let (after, ended) = on_writables-ends sockets st honest in
      (after, ended, on_writables-Progress fs fd sockets st bytes here ended)

module _ (fs : FileSystem) where
  -- The event of a socket that can be written to is handled to the end, whatever the socket does.
  pub on_writable-finishes :
      (fd : ℕ) (socket : Socket) (st : State fs) → on_writable fs fd socket st ≢ out_of_fuel
  unfolding on_writable handle_write
  on_writable-finishes fd socket st e =
      elim (>>=-eq-out_of_fuel (handle_write fs fd socket st) _ e) [
        | inl stuck ↦ elim (Option-cases (Map.get st.write_buffers fd)) [
          | inl gone ↦ let e1 = rw (handle_write, gone) at stuck in cc
          | inr (bytes, here) ↦
              elim (>>=-eq-out_of_fuel (write_loop socket (length bytes + 1) 0 bytes) _
                (rw (handle_write, here) at stuck)) [
                  | inl loops ↦
                      write_loop-finishes socket (length bytes + 1) 0 bytes (omega arith) loops
                  | inr (x, looped, end) ↦ cc
                ]
        ]
        | inr (x, handled, end) ↦ cc
      ]
