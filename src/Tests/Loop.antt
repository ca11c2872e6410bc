-- ===== src/Tests/Loop.antt =====
-- The event loop from its start: src/server.rs over src/epoll.rs.
use localserver.Base.{ℕ, refl, true, List, [], ◌∷◌}
use localserver.Std.Text.{chars, position}
use localserver.Std.Map.{get, insert, remove, get-remove}
use localserver.Std.Keys.{number_key}
use localserver.Request.Message.{parse}
use localserver.Response.{error, bad_request}
use localserver.Response.Serialize.{serialize_response}
use localserver.Epoll.{Mask, input_mask}
use localserver.Server.{
  State, registered, watched, first_config, check_timeouts, timed_out, is_timed_out,
  close_timed_out,
}
use localserver.Server.Read.{
  accept_connections, Incoming, drained, handle_read, receive, respond, is_too_large, attempt,
  answer_data, queue,
}
use localserver.Server.Rounds.{opened}
use localserver.Server.Run.{Ready, event_of}
use localserver.Server.Watch.Kernel.{make_calls, Closes}
use localserver.Server.Watch.Reach.{handled, accepts, reads, Round, round, here, next}
use localserver.Server.Watch.Attended.{Attended, Reach-Attended}
use localserver.Tests.Samples.{ascii_only, site, no_files, empty_world, no_processes, dawn, quick}
use localserver.Tests.Watches.{one_list, watched_for, one_list-IsKernel, the_epoll}

abbrev nothing_read : Incoming
nothing_read = record { chunks = []; ending = drained }

abbrev ready_for : Mask → ℕ → Ready
ready_for mask fd = record {
  fd = fd;
  flags = mask;
  arrivals = record { fd = 5; prepared = true; now = 0 } ∷ [];
  socket = quick;
  incoming = record { chunks = chars "GARBAGE" ∷ []; ending = drained };
  moment = dawn;
}

-- The listener has the descriptor 4: a connection comes, and then its bytes.
abbrev first_wait : List Ready
first_wait = ready_for input_mask 4 ∷ []

abbrev second_wait : List Ready
second_wait = ready_for input_mask 5 ∷ []

abbrev connected : State no_files
connected = record {
  world = empty_world;
  read_buffers = (5, []) ∷ [];
  write_buffers = [];
  connect_times = (5, 0) ∷ [];
  calls = registered 5 ∷ [];
}

abbrev answered : State no_files
answered = record {
  world = empty_world;
  read_buffers = [];
  write_buffers = (5, serialize_response (error bad_request)) ∷ [];
  connect_times = (5, 0) ∷ [];
  calls = registered 5 ∷ watched 5 ∷ [];
}

abbrev Steps : State no_files → State no_files → Type 0
Steps = Round ascii_only no_files no_processes (site ∷ []) 4

first_round : Steps (opened no_files empty_world) connected
unfolding opened event_of accept_connections check_timeouts timed_out close_timed_out insert
first_round = round 0 first_wait tt tt (accepts (refl, tt) refl handled)

second_round : Steps connected answered
unfolding event_of handle_read receive respond is_too_large attempt answer_data queue parse position
    first_config check_timeouts timed_out is_timed_out close_timed_out get insert remove
second_round = round 0 second_wait (λ e. cc e, tt) (tt, tt) (reads refl handled)

one_list-Closes : Closes one_list watched_for
one_list-Closes s ep fd j = get-remove s fd j

Reach-Attended_example :
    Attended 5 answered (watched_for (make_calls one_list the_epoll answered.calls []) 3 5)
Reach-Attended_example =
    Reach-Attended ascii_only no_files no_processes (site ∷ []) 4 one_list the_epoll watched_for
      one_list-IsKernel one_list-Closes empty_world answered
      (next (next here first_round) second_round) [] 5 (unfold get in refl)
