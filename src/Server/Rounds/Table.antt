-- ===== src/Server/Rounds/Table.antt =====
-- In the maps of the event loop no descriptor stands twice: the sweep, new connections, writes.
use mathlib.Core.Path.{subst}
use localserver.Base.{
  ℕ, ◌≡◌, Bool-cases, Option-cases, inl, inr, List, [], ◌∷◌, done, >>=-eq-done, length, ◌+◌,
}
use localserver.Std.Text.{Bytes}
use localserver.Std.Map
use localserver.Std.Map.Distinct.{Distinct, insert-Distinct, remove-Distinct}
use localserver.Std.Keys.{number_key}
use localserver.Handler.World.{FileSystem}
use localserver.Server.{State, timed_out, close_timed_out, check_timeouts}
use localserver.Server.Read.{Arrival, accept_connections}
use localserver.Server.Write.{
  Socket, Ending, complete, blocked, broken, write_loop, after_write, handle_write, on_writable,
  finish_write, forget_time,
}

module _ {fs : FileSystem} where
  abbrev pub IsTable : State fs → Type 0
  IsTable st = Distinct st.read_buffers × Distinct st.write_buffers × Distinct st.connect_times

  pub done-IsTable :
      {before after : State fs} → done before ≡ done after → IsTable before → IsTable after
  done-IsTable {before} {after} e t = let same : before ≡ after = cc in subst IsTable same t

  close_timed_out-IsTable :
      (fds : List ℕ) (st : State fs) → IsTable st → IsTable (close_timed_out fs st fds)
  unfolding close_timed_out
  close_timed_out-IsTable [] st t = t
  close_timed_out-IsTable (fd ∷ fds) st (r, w, c) = close_timed_out-IsTable fds _ (
    remove-Distinct st.read_buffers fd r,
    remove-Distinct st.write_buffers fd w,
    remove-Distinct st.connect_times fd c,
  )

  pub check_timeouts-IsTable :
      (now : ℕ) (st : State fs) → IsTable st → IsTable (check_timeouts fs now st)
  unfolding check_timeouts
  check_timeouts-IsTable now st t = close_timed_out-IsTable (timed_out now st.connect_times) st t

  pub accept_connections-IsTable :
      (arrivals : List Arrival) (st : State fs) {after : State fs}
      → IsTable st
      → accept_connections fs arrivals st ≡ done after
      → IsTable after
  unfolding accept_connections
  accept_connections-IsTable [] st {after} t e = done-IsTable e t
  accept_connections-IsTable (a ∷ arrivals) st (r, w, c) e = elim (Bool-cases a.prepared) [
    | inl ready ↦
        accept_connections-IsTable arrivals _
          (
            insert-Distinct st.read_buffers a.fd [] r,
            w,
            insert-Distinct st.connect_times a.fd a.now c,
          )
          (rw (accept_connections, ready) at e)
    | inr unready ↦ let e1 = rw (accept_connections, unready) at e in absurd cc
  ]

  after_write-IsTable :
      (fd : ℕ) (how : Ending) (left : Bytes) (st : State fs)
      → IsTable st
      → IsTable (after_write fs fd how left st)
  unfolding after_write finish_write
  after_write-IsTable fd complete left st (r, w, c) = (r, remove-Distinct st.write_buffers fd w, c)
  after_write-IsTable fd blocked left st (r, w, c) =
      (r, insert-Distinct st.write_buffers fd left w, c)
  after_write-IsTable fd broken left st (r, w, c) = (r, remove-Distinct st.write_buffers fd w, c)

  handle_write-IsTable :
      (fd : ℕ) (socket : Socket) (st : State fs) {after : State fs}
      → IsTable st
      → handle_write fs fd socket st ≡ done after
      → IsTable after
  unfolding handle_write finish_write
  handle_write-IsTable fd socket st {after} (r, w, c) e =
      elim (Option-cases (Map.get st.write_buffers fd)) [
        | inl gone ↦
            let same : finish_write fs fd st ≡ after = cc (rw (handle_write, gone) at e) in
            subst IsTable same (r, remove-Distinct st.write_buffers fd w, c)
        | inr (bytes, here) ↦
            let ((how, out, left), looped, ended) =
              >>=-eq-done (write_loop socket (length bytes + 1) 0 bytes) _
                (rw (handle_write, here) at e) in
            done-IsTable ended (after_write-IsTable fd how left _ (r, w, c))
      ]

  pub on_writable-IsTable :
      (fd : ℕ) (socket : Socket) (st : State fs) {after : State fs}
      → IsTable st
      → on_writable fs fd socket st ≡ done after
      → IsTable after
  unfolding on_writable
  on_writable-IsTable fd socket st {after} t e =
      let (mid, wrote, ended) = >>=-eq-done (handle_write fs fd socket st) _ e in
      let (r, w, c) = handle_write-IsTable fd socket st t wrote in
      let same : forget_time fs fd mid ≡ after = cc in
      subst IsTable same (r, w, remove-Distinct mid.connect_times fd c)
