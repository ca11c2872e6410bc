-- ===== src/Tests/Routes.antt =====
-- Routing and scripts: src/handler.rs and src/cgi.rs.
use mathlib.Core.Path.{subst}
use localserver.Base.{◌*◌, ◌≡◌, ◌↔◌, refl, false, none, some, [], arith, done, never}
use localserver.Std.Text.{Bytes, chars, starts_with}
use localserver.Config.Data.{Location}
use localserver.Request.Message.{Method, Request}
use localserver.Response.{Response, internal_server_error, error}
use localserver.Cgi.Run.{
  taken, left_full, unreadable, feed, running, Child, Processes, command_of, run,
}
use localserver.Cgi.Run.Timeout.{Sleeps, Cooperates, run-hangs, run-responds}
use localserver.Handler.Route.{match_location}
use localserver.Handler.Route.Longest.{In, IsLongest, match_location-IsLongest}
use localserver.Tests.Samples.{ascii_only, site}

match_location-IsLongest_example :
    ((l : Location)
      → match_location (chars "/files/a.txt") site ≡ some l
      → IsLongest (chars "/files/a.txt") site.locations l)
    × ((match_location (chars "/files/a.txt") site ≡ none) ↔ (
        (l : Location) → In l site.locations → starts_with (chars "/files/a.txt") l.path ≡ false))
match_location-IsLongest_example = match_location-IsLongest (chars "/files/a.txt") site

abbrev script_request : Request
script_request = record {
  method = Method.post;
  path = chars "/cgi/a.py";
  version = chars "HTTP/1.1";
  headers = [];
  body = chars "hi";
}

-- A script that never ends, on a system that sleeps for exactly ten milliseconds.
abbrev endless : Child
endless = record { input = taken; polls = λ n. running (10 * n); output = unreadable }

abbrev endless_system : Processes
endless_system = record { spawn = λ c b. some endless }

endless-Sleeps : Sleeps endless
endless-Sleeps n elapsed e = ground arith

run-hangs_example :
    run ascii_only endless_system (chars "python3") (chars "a.py") script_request
    ≡ done (error internal_server_error)
run-hangs_example =
    run-hangs ascii_only endless_system (chars "python3") (chars "a.py") script_request endless refl
      (λ _. refl) endless-Sleeps (λ n. (10 * n, refl))

endless-Cooperates : (body : Bytes) → Cooperates body endless
endless-Cooperates body = record {
  sleeps = endless-Sleeps;
  takes_input = λ _. refl;
  closes_output = λ e. cc e;
}

child-Cooperates :
    (child : Child)
    → endless_system.spawn (command_of (chars "python3") (chars "a.py") script_request) (chars "hi")
      ≡ some child
    → Cooperates (chars "hi") child
child-Cooperates child e =
    let same : endless ≡ child = cc e in
    subst (Cooperates (chars "hi")) same (endless-Cooperates (chars "hi"))

-- A script that leaves its input full is never waited for.
abbrev deaf_system : Processes
deaf_system = record { spawn = λ c b. some (record endless { input = left_full }) }

stalls : run ascii_only deaf_system (chars "python3") (chars "a.py") script_request ≡ never
unfolding run feed
stalls = refl

run-responds_example :
    (r : Response) × (run ascii_only endless_system (chars "python3") (chars "a.py") script_request
      ≡ done r)
run-responds_example =
    run-responds ascii_only endless_system (chars "python3") (chars "a.py") script_request
      child-Cooperates
