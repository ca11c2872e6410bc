-- ===== src/Server/Write/Stall.antt =====
-- The sweeps behind the event of a socket that can be written to.
use localserver.Base.{
  ℕ, ◌≡◌, refl, sym, ap, ◌∙◌, ==-self, false, none, List, [], ◌∷◌, arith, done, >>=-eq-done,
}
use localserver.Std.Map
use localserver.Std.Map.{get-remove}
use localserver.Std.Keys.{number_key}
use localserver.Handler.World.{FileSystem}
use localserver.Server.{State, check_timeouts}
use localserver.Server.Read.Stale.{closes, closes-append}
use localserver.Server.Rounds.Table.{IsTable, check_timeouts-IsTable, on_writable-IsTable}
use localserver.Server.Timeouts.{is_over, is_among, closings, check_timeouts-Evicts}
use localserver.Server.Write.{Socket, handle_write, on_writable, forget_time}
use localserver.Server.Write.Ends.{IsHonest, on_writable-ends}

-- The sweeps of rounds in which nothing else happens, at these times.
abbrev pub sweeps : (fs : FileSystem) → List ℕ → State fs → State fs
sweeps fs [] st = st
sweeps fs (now ∷ times) st = sweeps fs times (check_timeouts fs now st)

closes-none : (fd : ℕ) (fds : List ℕ) → is_among fd fds ≡ false → closes fd (closings fds) ≡ 0
closes-none fd [] h = refl
closes-none fd (j ∷ fds) h = ground (arith, closes-none fd fds)

-- What the sweeps leave of a descriptor.
record Left {fs : FileSystem} (fd : ℕ) (before after : State fs) : Type 0 where
  same_answer : Map.get after.write_buffers fd ≡ Map.get before.write_buffers fd
  not_closed : closes fd after.calls ≡ closes fd before.calls

module _ (fs : FileSystem) (fd : ℕ) where
  check_timeouts-Left :
      (now : ℕ) (st : State fs)
      → IsTable st
      → Map.get st.connect_times fd ≡ none
      → Left fd st (check_timeouts fs now st)
        × (Map.get (check_timeouts fs now st).connect_times fd ≡ none)
  check_timeouts-Left now st (r, w, c) timeless =
      let (entries, (fds, swept, among)) = check_timeouts-Evicts fs now st c in
      let (reads, writes, times) = entries fd in
      let over : is_over now st.connect_times fd ≡ false = rw (is_over, timeless) refl in
      let none_closed = closes-none fd fds (among fd ∙ over) in
      let total = ap (closes fd) swept ∙ closes-append fd st.calls (closings fds) in
      (
        record {
          same_answer = writes ∙ rw over refl;
          not_closed = omega (arith, total, none_closed);
        },
        times ∙ rw over timeless,
      )

  sweeps-Left :
      (times : List ℕ) (st : State fs)
      → IsTable st
      → Map.get st.connect_times fd ≡ none
      → Left fd st (sweeps fs times st)
  sweeps-Left [] st t timeless = record { same_answer = refl; not_closed = refl }
  sweeps-Left (now ∷ times) st t timeless =
      let (one, still) = check_timeouts-Left now st t timeless in
      let more =
        sweeps-Left times (check_timeouts fs now st) (check_timeouts-IsTable now st t) still in
      record {
        same_answer = more.same_answer ∙ one.same_answer;
        not_closed = more.not_closed ∙ one.not_closed;
      }

  on_writable-time :
      (socket : Socket) (st : State fs) {after : State fs}
      → on_writable fs fd socket st ≡ done after
      → Map.get after.connect_times fd ≡ none
  unfolding on_writable
  on_writable-time socket st {after} e =
      let (mid, wrote, ended) = >>=-eq-done (handle_write fs fd socket st) _ e in
      let same : forget_time fs fd mid ≡ after = cc in
      ap (λ (x : State fs). Map.get x.connect_times fd) (sym same)
      ∙ get-remove mid.connect_times fd fd
      ∙ rw (==-self fd) refl

  -- If no descriptor stands twice in the maps and a socket takes no more bytes than it is offered,
  -- then behind its first event, also one in which it takes nothing, no sweep at any time closes it
  -- or drops the answer that waits for it.
  pub on_writable-sweeps :
      (socket : Socket) (st : State fs) (times : List ℕ)
      → IsHonest socket
      → IsTable st
      → (after : State fs) × (on_writable fs fd socket st ≡ done after)
        × (Map.get (sweeps fs times after).write_buffers fd ≡ Map.get after.write_buffers fd)
        × (closes fd (sweeps fs times after).calls ≡ closes fd after.calls)
  on_writable-sweeps socket st times honest t =
      let (after, e) = on_writable-ends fs fd socket st honest in
      let rest =
        sweeps-Left times after (on_writable-IsTable fd socket st t e)
          (on_writable-time socket st e) in
      (after, e, rest.same_answer, rest.not_closed)
