-- ===== src/Server/Read/Stale.antt =====
-- `handle_read` on a connection whose reads fail, and the sweep behind it.
use localserver.Base.{
  ℕ, ◌+◌, ◌-◌, ◌≤◌, ◌≡◌, refl, ap, ◌∙◌, ◌==◌, ==-self, true, some, List, [], ◌∷◌, ◌++◌, arith,
  if◌then◌else◌, done,
}
use localserver.Std.Text.{Unicode}
use localserver.Std.Map
use localserver.Std.Map.Distinct.{Distinct}
use localserver.Std.Keys.{number_key}
use localserver.Config.Data.{ServerConfig}
use localserver.Cgi.Run.{Processes}
use localserver.Handler.World.{FileSystem, Moment}
use localserver.Server.{
  State, Call, registered, watched, removed, closed, shut, sent, is_timed_out, timeout_reached,
  check_timeouts,
}
use localserver.Server.Read.{Incoming, failed, receive, after_read, forget, handle_read}
use localserver.Server.Timeouts.{is_over, is_among, closings, check_timeouts-Evicts}

-- How often the descriptor was closed.
abbrev pub closes : ℕ → List Call → ℕ
closes fd [] = 0
closes fd (closed j ∷ calls) = (if j == fd then 1 else 0) + closes fd calls
closes fd (registered _ ∷ calls) = closes fd calls
closes fd (watched _ ∷ calls) = closes fd calls
closes fd (removed _ ∷ calls) = closes fd calls
closes fd (shut _ ∷ calls) = closes fd calls
closes fd (sent _ _ ∷ calls) = closes fd calls

pub closes-append :
    (fd : ℕ) (before after : List Call)
    → closes fd (before ++ after) ≡ closes fd before + closes fd after
closes-append fd [] after = omega arith
closes-append fd (closed j ∷ calls) after = omega (arith, closes-append fd calls after)
closes-append fd (registered _ ∷ calls) after = closes-append fd calls after
closes-append fd (watched _ ∷ calls) after = closes-append fd calls after
closes-append fd (removed _ ∷ calls) after = closes-append fd calls after
closes-append fd (shut _ ∷ calls) after = closes-append fd calls after
closes-append fd (sent _ _ ∷ calls) after = closes-append fd calls after

closes-closings : (fd : ℕ) (fds : List ℕ) → is_among fd fds ≡ true → 1 ≤ closes fd (closings fds)
closes-closings fd [] h = cc
closes-closings fd (j ∷ fds) h = ground (arith, closes-closings fd fds)

-- If the reads of a connection fail, `handle_read` closes it, and the sweep that comes 31 seconds
-- after it was accepted, or later, closes its descriptor again, whatever that is by then.
pub handle_read-check_timeouts :
    (u : Unicode) (fs : FileSystem) (system : Processes) (configs : List ServerConfig)
    → (fd : ℕ) (incoming : Incoming) (m : Moment) (st : State fs) (t now : ℕ)
    → incoming.ending ≡ failed
    → Map.get st.connect_times fd ≡ some t
    → Distinct st.connect_times
    → timeout_reached ≤ now - t
    → (after : State fs) × (handle_read u fs system configs fd incoming m st ≡ done after)
      × (closes fd st.calls + 2 ≤ closes fd (check_timeouts fs now after).calls)
unfolding handle_read after_read forget is_timed_out
handle_read-check_timeouts u fs system configs fd incoming m st t now fails accepted table late =
    let after : State fs =
      forget u fs system configs fd (removed fd ∷ closed fd ∷ [])
        (record st { read_buffers = receive fd incoming.chunks st.read_buffers }) in
    let (entries, (fds, swept, among)) = check_timeouts-Evicts fs now after table in
    let over : is_over now st.connect_times fd ≡ true = rw (is_over, accepted) (ground arith) in
    let again = closes-closings fd fds (among fd ∙ over) in
    let once : closes fd after.calls ≡ closes fd st.calls + 1 =
      closes-append fd st.calls (removed fd ∷ closed fd ∷ []) ∙ rw (==-self fd) refl in
    let total : closes fd (check_timeouts fs now after).calls
        ≡ closes fd after.calls + closes fd (closings fds) =
      ap (closes fd) swept ∙ closes-append fd after.calls (closings fds) in
    (after, rw (handle_read, fails) refl, omega (arith, once, again, total))
