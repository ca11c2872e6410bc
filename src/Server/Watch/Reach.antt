-- ===== src/Server/Watch/Reach.antt =====
-- The rounds of the event loop as a step relation, with what the kernel promises of descriptors.
use localserver.Base.{map, ℕ, ◌≡◌, refl, List, [], ◌∷◌, done}
use localserver.Std.Text.{Unicode}
use localserver.Std.Map
use localserver.Std.Keys.{number_key}
use localserver.Config.Data.{ServerConfig}
use localserver.Cgi.Run.{Processes}
use localserver.Handler.World.{FileSystem, Moment, World}
use localserver.Server.{State, check_timeouts}
use localserver.Server.Read.{Arrival, Incoming, accept_connections, handle_read}
use localserver.Server.Write.{Socket, on_writable}
use localserver.Server.Rounds.{
  Event, acceptable, writable, readable, handle_event, handle_events, opened,
}
use localserver.Server.Run.{Ready, event_of, Waited, woken, run_waits}
use localserver.Server.Watch.{AllNew, idle_phase, IsWatched}
use localserver.Server.Watch.Steps.{
  Touches-IsWatched, check_timeouts-IsWatched, accept_connections-IsWatched,
}
use localserver.Server.Watch.Reads.{handle_read-Written}
use localserver.Server.Watch.Writes.{on_writable-Written}
use localserver.Server.Watch.Reported.{
  AllWatched, AllOnce, AllReported, AllWatched-AllReported, AllReported-Touches,
  check_timeouts-Reported, accept_connections-Reported,
}

module _ (u : Unicode) (fs : FileSystem) (system : Processes) (configs : List ServerConfig)
    (listener : ℕ) where
  -- The events of a round, one by one. New connections have descriptors that are not watched.
  pub data Handles : List Event → State fs → State fs → Type 0 where
    handled : {st : State fs} → Handles [] st st
    accepts :
        {arrivals : List Arrival} {events : List Event} {st mid after : State fs}
        → AllNew st.calls arrivals
        → accept_connections fs arrivals st ≡ done mid
        → Handles events mid after
        → Handles (acceptable arrivals ∷ events) st after
    writes :
        {fd : ℕ} {socket : Socket} {events : List Event} {st mid after : State fs}
        → on_writable fs fd socket st ≡ done mid
        → Handles events mid after
        → Handles (writable fd socket ∷ events) st after
    reads :
        {fd : ℕ} {incoming : Incoming} {m : Moment} {events : List Event} {st mid after : State fs}
        → handle_read u fs system configs fd incoming m st ≡ done mid
        → Handles events mid after
        → Handles (readable fd incoming m ∷ events) st after

  -- A round: the kernel reports, once each, descriptors that are watched at the wait; then comes
  -- the sweep, then the events.
  pub data Round (st after : State fs) : Type 0 where
    round :
        (now : ℕ) (ready : List Ready)
        → AllWatched st.calls (map (event_of listener) ready)
        → AllOnce (map (event_of listener) ready)
        → Handles (map (event_of listener) ready) (check_timeouts fs now st) after
        → Round st after

  pub data Reach (st : State fs) : State fs → Type 0 where
    here : Reach st st
    next : {mid after : State fs} → Reach st mid → Round mid after → Reach st after

  Handles-IsWatched :
      (events : List Event) {st after : State fs}
      → Handles events st after
      → AllOnce events
      → AllReported events st
      → IsWatched st
      → IsWatched after
  Handles-IsWatched _ handled once r w = w
  Handles-IsWatched (acceptable arrivals ∷ events) {st} (accepts new e h) once r w =
      Handles-IsWatched events h once (accept_connections-Reported arrivals st events r e)
        (accept_connections-IsWatched arrivals st new w e)
  Handles-IsWatched (writable fd socket ∷ events) {st} (writes {mid = mid} e h) (n, once) r w =
      let written = on_writable-Written fd socket st (w.phase fd) e in
      Handles-IsWatched events h once (AllReported-Touches fd st mid written.touches events n r)
        (Touches-IsWatched fd st mid written.touches written.phase w)
  Handles-IsWatched (readable fd incoming m ∷ events) {st} (reads {mid = mid} e h) (n, once) (q, r)
        w =
      let written = handle_read-Written fd u system configs incoming m st (w.phase fd) q e in
      Handles-IsWatched events h once (AllReported-Touches fd st mid written.touches events n r)
        (Touches-IsWatched fd st mid written.touches written.phase w)

  Round-IsWatched : {st after : State fs} → Round st after → IsWatched st → IsWatched after
  Round-IsWatched {st} (round now ready watched once h) w =
      let events = map (event_of listener) ready in
      Handles-IsWatched events h once
        (check_timeouts-Reported now st events (AllWatched-AllReported events st watched))
        (check_timeouts-IsWatched now st w)

  opened-IsWatched : (w : World fs) → IsWatched (opened fs w)
  unfolding opened Map.get
  opened-IsWatched w = record { phase = λ fd. idle_phase refl refl }

  -- In every state that rounds of the loop reach from its start: a connection that epoll watches
  -- for writing has an answer that waits; one that it watches for reading has a buffer, a time of
  -- connection and no answer; and no answer waits for a descriptor that is not watched. The kernel
  -- reports, once each, descriptors that are watched, and gives new connections others.
  pub Reach-IsWatched : (w : World fs) {st : State fs} → Reach (opened fs w) st → IsWatched st
  Reach-IsWatched w here = opened-IsWatched w
  Reach-IsWatched w (next r s) = Round-IsWatched s (Reach-IsWatched w r)

  -- The relation follows the code.
  Handles-handle_events :
      (events : List Event) {st after : State fs}
      → Handles events st after
      → handle_events u fs system configs events st ≡ done after
  unfolding handle_events handle_event
  Handles-handle_events _ handled = refl
  Handles-handle_events (acceptable arrivals ∷ events) (accepts new e h) =
      rw (handle_events, handle_event, e) (Handles-handle_events events h)
  Handles-handle_events (writable fd socket ∷ events) (writes e h) =
      rw (handle_events, handle_event, e) (Handles-handle_events events h)
  Handles-handle_events (readable fd incoming m ∷ events) (reads e h) =
      rw (handle_events, handle_event, e) (Handles-handle_events events h)

  Round-run_waits :
      {st after : State fs}
      → Round st after
      → (waits : List Waited) × (run_waits u fs system configs listener waits st ≡ done after)
  unfolding run_waits
  Round-run_waits (round now ready watched once h) = (
    woken now ready ∷ [],
    rw (run_waits, Handles-handle_events (map (event_of listener) ready) h) refl,
  )
