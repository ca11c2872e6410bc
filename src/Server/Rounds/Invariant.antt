-- ===== src/Server/Rounds/Invariant.antt =====
-- In the maps of the event loop no descriptor stands twice: reads, and rounds of the loop.
use mathlib.Core.Path.{subst}
use localserver.Base.{
  ℕ, ◌≡◌, Bool, true, false, Option-cases, inl, inr, List, [], ◌∷◌, ◌++◌, done, >>=-eq-done,
}
use localserver.Std.Text.{Bytes, Unicode}
use localserver.Std.Map
use localserver.Std.Map.Distinct.{Distinct, insert-Distinct, remove-Distinct}
use localserver.Std.Keys.{number_key}
use localserver.Config.Data.{ServerConfig}
use localserver.Cgi.Run.{Processes}
use localserver.Handler.World.{FileSystem, Moment}
use localserver.Server.{State, check_timeouts}
use localserver.Server.Read.{
  ReadEnd, drained, disconnected, failed, receive, is_too_large, answer_data, queue, reply_to,
  respond, after_read, handle_read, forget,
}
use localserver.Server.Rounds.{
  Event, acceptable, writable, readable, handle_event, handle_events, run_rounds,
}
use localserver.Server.Rounds.Table.{
  IsTable, done-IsTable, check_timeouts-IsTable, accept_connections-IsTable, on_writable-IsTable,
}

receive-Distinct :
    (fd : ℕ) (chunks : List Bytes) (buffers : List (ℕ × Bytes))
    → Distinct buffers
    → Distinct (receive fd chunks buffers)
unfolding receive
receive-Distinct fd [] buffers d = d
receive-Distinct fd (chunk ∷ chunks) buffers d = elim (Option-cases (Map.get buffers fd)) [
  | inl gone ↦ rw (receive, gone) (receive-Distinct fd chunks buffers d)
  | inr (old, here) ↦
      rw (receive, here)
        (receive-Distinct fd chunks _ (insert-Distinct buffers fd (old ++ chunk) d))
]

module _ (u : Unicode) {fs : FileSystem} (system : Processes) (configs : List ServerConfig) where
  reply_to-IsTable :
      (fd : ℕ) (m : Moment) (bytes : Bytes) (big : Bool) (st : State fs) {after : State fs}
      → IsTable st
      → reply_to u fs system configs fd m bytes big st ≡ done after
      → IsTable after
  unfolding reply_to queue
  reply_to-IsTable fd m bytes true st {after} (r, w, c) e =
      done-IsTable e (r, insert-Distinct st.write_buffers fd _ w, c)
  reply_to-IsTable fd m bytes false st {after} (r, w, c) e =
      let (x, answered, queues) =
        >>=-eq-done (answer_data u fs system configs m st.world bytes) _ e in
      done-IsTable queues
        (remove-Distinct st.read_buffers fd r, insert-Distinct st.write_buffers fd _ w, c)

  respond-IsTable :
      (fd : ℕ) (m : Moment) (st : State fs) {after : State fs}
      → IsTable st
      → respond u fs system configs fd m st ≡ done after
      → IsTable after
  unfolding respond
  respond-IsTable fd m st {after} (r, w, c) e = elim (Option-cases (Map.get st.read_buffers fd)) [
    | inl gone ↦
        let same : record st { read_buffers = Map.remove st.read_buffers fd } ≡ after =
          cc (rw (respond, gone) at e) in
        subst IsTable same (remove-Distinct st.read_buffers fd r, w, c)
    | inr (bytes, here) ↦
        let (big, limited, replied) =
          >>=-eq-done (is_too_large u fs system configs bytes) _ (rw (respond, here) at e) in
        reply_to-IsTable fd m bytes big st (r, w, c) replied
  ]

  after_read-IsTable :
      (fd : ℕ) (ending : ReadEnd) (m : Moment) (st : State fs) {after : State fs}
      → IsTable st
      → after_read u fs system configs fd ending m st ≡ done after
      → IsTable after
  unfolding after_read forget
  after_read-IsTable fd drained m st t e = respond-IsTable fd m st t e
  after_read-IsTable fd disconnected m st {after} (r, w, c) e =
      done-IsTable e
        (remove-Distinct st.read_buffers fd r, remove-Distinct st.write_buffers fd w, c)
  after_read-IsTable fd failed m st {after} (r, w, c) e =
      done-IsTable e
        (remove-Distinct st.read_buffers fd r, remove-Distinct st.write_buffers fd w, c)

  handle_event-IsTable :
      (event : Event) (st : State fs) {after : State fs}
      → IsTable st
      → handle_event u fs system configs event st ≡ done after
      → IsTable after
  unfolding handle_event handle_read
  handle_event-IsTable (acceptable arrivals) st t e = accept_connections-IsTable arrivals st t e
  handle_event-IsTable (writable fd socket) st t e = on_writable-IsTable fd socket st t e
  handle_event-IsTable (readable fd incoming m) st (r, w, c) e =
      after_read-IsTable fd incoming.ending m _
        (receive-Distinct fd incoming.chunks st.read_buffers r, w, c) e

  handle_events-IsTable :
      (events : List Event) (st : State fs) {after : State fs}
      → IsTable st
      → handle_events u fs system configs events st ≡ done after
      → IsTable after
  unfolding handle_events
  handle_events-IsTable [] st t e = done-IsTable e t
  handle_events-IsTable (event ∷ events) st t e =
      let (mid, first, later) = >>=-eq-done (handle_event u fs system configs event st) _ e in
      handle_events-IsTable events mid (handle_event-IsTable event st t first) later

  -- Rounds of the event loop, whatever is accepted, read and written in them, keep the maps such
  -- that no descriptor stands twice.
  run_rounds-IsTable :
      (later : List (ℕ × List Event)) (st : State fs) {after : State fs}
      → IsTable st
      → run_rounds u fs system configs later st ≡ done after
      → IsTable after
  unfolding run_rounds
  run_rounds-IsTable [] st t e = done-IsTable e t
  run_rounds-IsTable ((now, events) ∷ later) st t e =
      let swept = check_timeouts-IsTable now st t in
      let (mid, first, rest) =
        >>=-eq-done (handle_events u fs system configs events (check_timeouts fs now st)) _ e in
      run_rounds-IsTable later mid (handle_events-IsTable events _ swept first) rest
