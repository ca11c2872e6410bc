-- ===== src/Server/Rounds.antt =====
-- src/server.rs: `Server::run`, round by round.
pub mod Table
pub mod Invariant
use localserver.Base.{ℕ, List, [], ◌∷◌, Outcome, done, ◌>>=◌}
use localserver.Std.Text.{Unicode}
use localserver.Config.Data.{ServerConfig}
use localserver.Cgi.Run.{Processes}
use localserver.Handler.World.{FileSystem, Moment, World}
use localserver.Server.{State, check_timeouts}
use localserver.Server.Read.{Arrival, Incoming, accept_connections, handle_read}
use localserver.Server.Write.{Socket, Wrote, on_writable}

-- What epoll reports, with what the sockets do when they are used.
pub data Event : Type 0 where
  acceptable : List Arrival → Event
  writable : ℕ → Socket → Event
  readable : ℕ → Incoming → Moment → Event

module _ (u : Unicode) (fs : FileSystem) (system : Processes) (configs : List ServerConfig) where
  unfoldable pub handle_event : Event → State fs → Outcome (State fs)
  handle_event (acceptable arrivals) st = accept_connections fs arrivals st
  handle_event (writable fd socket) st = on_writable fs fd socket st
  handle_event (readable fd incoming m) st = handle_read u fs system configs fd incoming m st

  unfoldable pub handle_events : List Event → State fs → Outcome (State fs)
  unfolding handle_event
  handle_events [] st = done st
  handle_events (event ∷ events) st = do after ← handle_event event st; handle_events events after

  -- The rounds of the loop: the clock and the events of each.
  unfoldable pub run_rounds : List (ℕ × List Event) → State fs → Outcome (State fs)
  unfolding handle_events
  run_rounds [] st = done st
  run_rounds ((now, events) ∷ later) st = do
    after ← handle_events events (check_timeouts fs now st)
    run_rounds later after

-- The state in which the loop starts.
unfoldable pub opened : (fs : FileSystem) → World fs → State fs
opened fs w = record {
  world = w;
  read_buffers = [];
  write_buffers = [];
  connect_times = [];
  calls = [];
}
