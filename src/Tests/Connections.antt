-- ===== src/Tests/Connections.antt =====
-- The event loop: src/server.rs.
use localserver.Base.{arith, ◌+◌, ◌≤◌, List, true, ℕ, ◌*◌, ◌≡◌, refl, [], ◌∷◌, done}
use localserver.Std.Text.{Text, chars, position}
use localserver.Std.Map
use localserver.Std.Map.{get, insert, remove}
use localserver.Std.Keys.{number_key}
use localserver.Request.Message.{parse, Request, Method}
use localserver.Std.Text.{split, text_eq}
use localserver.Std.Keys.{text_key}
use localserver.Base.{some, ◌⊎◌}
use localserver.Response.{error, bad_request}
use localserver.Response.Serialize.{serialize_response}
use localserver.Server.{
  registered, first_config, State, watched, removed, shut, closed, sent, check_timeouts, timed_out,
  is_timed_out, close_timed_out,
}
use localserver.Server.Read.{
  accept_connections, accept_connections, Incoming, drained, failed, handle_read, receive, respond,
  is_too_large, attempt, answer_data, queue,
}
use localserver.Server.Read.Reply.{Answered, handle_read-Answered}
use localserver.Server.Timeouts.{Evicts, check_timeouts-Evicts}
use localserver.Server.Write.{write_loop, drain, after_write, handle_write, on_writable}
use localserver.Server.Write.Delivery.{Progress, on_writables}
use localserver.Server.Write.Ends.{on_writables-delivers}
use localserver.Server.Write.Stall.{sweeps, on_writable-sweeps}
use localserver.Server.Read.Stale.{closes, handle_read-check_timeouts}
use localserver.Server.Rounds.{
  Event, acceptable, readable, writable, run_rounds, handle_events, handle_event,
}
use localserver.Config.Data.{ServerConfig}
use localserver.Server.{host_of, find_config, named, match_config}
use localserver.Server.Choice.{Names, IsFirstNamed, IsUnnamed, match_config-IsFirstNamed}
use localserver.Tests.Samples.{
  ascii_only, site, no_files, empty_world, no_processes, dawn, slow, quick, slow-IsHonest,
  quick-IsHonest,
}

abbrev half_read : State no_files
half_read = record {
  world = empty_world;
  read_buffers = (5, chars "GAR") ∷ [];
  write_buffers = [];
  connect_times = (5, 0) ∷ [];
  calls = [];
}

abbrev rest_of_it : Incoming
rest_of_it = record { chunks = chars "BA" ∷ chars "GE" ∷ []; ending = drained }

abbrev refusal : State no_files
refusal = record half_read {
  read_buffers = [];
  write_buffers = (5, serialize_response (error bad_request)) ∷ [];
  calls = watched 5 ∷ [];
}

read_garbage :
    handle_read ascii_only no_files no_processes (site ∷ []) 5 rest_of_it dawn half_read
    ≡ done refusal
unfolding first_config handle_read receive respond is_too_large attempt answer_data queue parse
    position get insert remove
read_garbage = refl

handle_read-Answered_example :
    Answered ascii_only no_files no_processes
      (site ∷ [])
      5
      dawn
      empty_world
      (chars "GARBAGE")
      refusal
handle_read-Answered_example =
    handle_read-Answered ascii_only no_files no_processes (site ∷ []) 5 rest_of_it dawn half_read
      (chars "GAR") (unfold get in refl) refl read_garbage

abbrev to_write : State no_files
to_write = record half_read { read_buffers = []; write_buffers = (5, chars "hello") ∷ [] }

abbrev written : State no_files
written = record to_write {
  write_buffers = [];
  connect_times = [];
  calls = sent 5 (chars "hel") ∷ sent 5 (chars "lo") ∷ removed 5 ∷ shut 5 ∷ closed 5 ∷ [];
}

write_hello : on_writables no_files 5 (slow ∷ quick ∷ []) to_write ≡ done written
unfolding on_writables on_writable handle_write after_write write_loop drain get insert remove
write_hello = refl

on_writables-delivers_example :
    (after : State no_files) × (on_writables no_files 5 (slow ∷ quick ∷ []) to_write ≡ done after)
    × Progress no_files 5 (slow ∷ quick ∷ []) to_write after (chars "hello")
on_writables-delivers_example =
    on_writables-delivers no_files 5 (slow ∷ quick ∷ []) to_write (chars "hello")
      (slow-IsHonest, (quick-IsHonest, tt)) (unfold get in refl)

on_writable-sweeps_example :
    (after : State no_files) × (on_writable no_files 5 slow to_write ≡ done after)
    × (Map.get (sweeps no_files (40 * 1000000000 ∷ []) after).write_buffers 5
        ≡ Map.get after.write_buffers 5)
    × (closes 5 (sweeps no_files (40 * 1000000000 ∷ []) after).calls ≡ closes 5 after.calls)
on_writable-sweeps_example =
    on_writable-sweeps no_files 5 slow to_write (40 * 1000000000 ∷ []) slow-IsHonest
      (tt, (unfold get in refl, tt), (unfold get in refl, tt))

abbrev reset : Incoming
reset = record { chunks = chars "GET" ∷ []; ending = failed }

handle_read-check_timeouts_example :
    (after : State no_files) × (handle_read ascii_only no_files no_processes
        (site ∷ [])
        5
        reset
        dawn
        half_read
      ≡ done after)
    × (closes 5 half_read.calls + 2
        ≤ closes 5 (check_timeouts no_files (31 * 1000000000) after).calls)
handle_read-check_timeouts_example =
    handle_read-check_timeouts ascii_only no_files no_processes (site ∷ []) 5 reset dawn half_read 0
      (31 * 1000000000) refl (unfold get in refl) (unfold get in refl, tt) (omega arith)

abbrev two_connections : State no_files
two_connections = record half_read { connect_times = (5, 0) ∷ (6, 40 * 1000000000) ∷ [] }

check_timeouts-Evicts_example :
    Evicts no_files
      (50 * 1000000000)
      two_connections
      (check_timeouts no_files (50 * 1000000000) two_connections)
check_timeouts-Evicts_example =
    check_timeouts-Evicts no_files (50 * 1000000000) two_connections
      (unfold get in refl, (unfold get in refl, tt))

sweep :
    (check_timeouts no_files (50 * 1000000000) two_connections).connect_times
    ≡ (6, 40 * 1000000000) ∷ []
unfolding check_timeouts timed_out is_timed_out close_timed_out remove
sweep = refl

-- A new connection, a read that is answered, and a write, in two rounds.
abbrev morning : State no_files
morning = record half_read {
  write_buffers = (6, chars "hello") ∷ [];
  connect_times = (5, 0) ∷ (6, 0) ∷ [];
}

abbrev day : List (ℕ × List Event)
day =
    (
      0,
      acceptable (record { fd = 7; prepared = true; now = 0 } ∷ [])
          ∷ readable 5 rest_of_it dawn
          ∷ [],
    )
    ∷ (10 * 1000000000, writable 6 slow ∷ [])
    ∷ []

abbrev evening : State no_files
evening = record half_read {
  read_buffers = (7, []) ∷ [];
  write_buffers = (6, chars "lo") ∷ (5, serialize_response (error bad_request)) ∷ [];
  connect_times = (5, 0) ∷ (7, 0) ∷ [];
  calls = registered 7 ∷ watched 5 ∷ sent 6 (chars "hel") ∷ [];
}

day_runs : run_rounds ascii_only no_files no_processes (site ∷ []) day morning ≡ done evening
unfolding run_rounds handle_events handle_event accept_connections check_timeouts timed_out
    is_timed_out close_timed_out first_config handle_read receive respond is_too_large attempt
    answer_data queue parse position on_writable handle_write after_write write_loop drain get
    insert remove
day_runs = refl

abbrev to_b : Request
to_b = record {
  method = Method.get;
  path = chars "/";
  version = chars "HTTP/1.1";
  headers = (chars "host", chars "b:8080") ∷ [];
  body = [];
}

abbrev site_b : ServerConfig
site_b = record site { server_name = some (chars "b") }

match_config-IsFirstNamed_example :
    (c : ServerConfig) × (match_config (site ∷ site_b ∷ []) to_b ≡ done c)
    × ((host : Text) × Names (get to_b.headers (chars "host")) host
        × (IsFirstNamed host (site ∷ site_b ∷ []) c
            ⊎ (IsUnnamed host (site ∷ site_b ∷ []) × (c ≡ site))))
match_config-IsFirstNamed_example = match_config-IsFirstNamed site (site_b ∷ []) to_b

answered_by_b : match_config (site ∷ site_b ∷ []) to_b ≡ done site_b
unfolding match_config first_config find_config named host_of split get text_eq
answered_by_b = refl
