-- ===== src/Tests/Deaf.antt =====
-- A POST to a script that does not read it: src/cgi.rs.
use mathlib.Core.Option
use localserver.Base.{
  ◌≤◌, ◌≡◌, refl, ap, ◌∙◌, some, [], ◌∷◌, arith, length, done, never, append-nil,
}
use localserver.Std.Text.{Bytes, chars, split_once, text_eq, starts_with, ends_with}
use localserver.Std.Text.Lines.{join_lines}
use localserver.Std.Map.{get, insert}
use localserver.Std.Keys.{number_key, text_key}
use localserver.Config.Data.{Cgi, Location, ServerConfig}
use localserver.Request.Message.{Request, parse, parse_method}
use localserver.Request.Message.Format.{format_request}
use localserver.Request.Message.RoundTrip.{parse-format_request}
use localserver.Cgi.Run.{Processes, Child, running, left_full, unreadable}
use localserver.Handler.Route.{
  match_location, matching, longest, max_by_len, is_method_allowed, find_cgi,
}
use localserver.Handler.Build.Deaf.{IsDeafScript}
use localserver.Server.{State, match_config, first_config, find_config, named, with_query}
use localserver.Server.Read.{Incoming, drained, handle_read}
use localserver.Server.Read.Stalls.{handle_read-stalls}
use localserver.Server.Exchange.{request_of}
use localserver.Tests.Samples.{ascii_only, place, site, no_files, empty_world, dawn}
use localserver.Tests.Written.{upload_line, plain_headers, plain_headers_fit, not_chunked}

abbrev script : Cgi
script = record { extension = chars "load"; interpreter = chars "python3" }

abbrev scripts : Location
scripts = record (place (chars "/") (chars "./cgi")) { cgi = some script }

abbrev script_site : ServerConfig
script_site = record site { locations = scripts ∷ [] }

-- It is still running at every poll, after ten milliseconds each.
abbrev deaf : Child
deaf = record { input = left_full; polls = λ n. running n; output = unreadable }

abbrev deaf_system : Processes
deaf_system = record { spawn = λ c b. some deaf }

abbrev posted : Bytes
posted =
    format_request (chars "POST") (chars "/upload") (chars "HTTP/1.1") plain_headers (chars "hi")

abbrev post : Request
post =
    request_of ascii_only (chars "POST") (chars "/upload") (chars "HTTP/1.1") plain_headers
      (chars "hi")

post-IsDeafScript : IsDeafScript deaf_system script_site (with_query post) scripts script deaf
unfolding with_query split_once insert parse_method text_eq match_location matching longest
    max_by_len starts_with is_method_allowed find_cgi Option.bind ends_with
post-IsDeafScript = record {
  direct = refl;
  no_page = refl;
  found = refl;
  posts = refl;
  allowed = refl;
  script = refl;
  started = refl;
  some_body = refl;
  deaf = refl;
}

abbrev waiting : State no_files
waiting = record {
  world = empty_world;
  read_buffers = (5, []) ∷ [];
  write_buffers = [];
  connect_times = (5, 0) ∷ [];
  calls = [];
}

abbrev all_of_it : Incoming
all_of_it = record { chunks = posted ∷ []; ending = drained }

posted_read : parse ascii_only posted ≡ done post
posted_read =
    parse-format_request ascii_only (chars "POST") (chars "/upload") (chars "HTTP/1.1")
      plain_headers upload_line plain_headers_fit (chars "hi") not_chunked

served_by_scripts : match_config (script_site ∷ []) post ≡ done script_site
unfolding match_config first_config find_config named
served_by_scripts = refl

posted_fits : length posted ≤ script_site.client_max_body_size
unfolding format_request join_lines
posted_fits = omega arith

handle_read-stalls_example :
    handle_read ascii_only no_files deaf_system (script_site ∷ []) 5 all_of_it dawn waiting ≡ never
handle_read-stalls_example =
    handle_read-stalls ascii_only no_files deaf_system (script_site ∷ []) 5 all_of_it dawn waiting
      [] post script_site scripts script deaf (unfold get in refl) refl
      (ap (parse ascii_only) (append-nil posted) ∙ posted_read) served_by_scripts
      (rw (append-nil posted) posted_fits) post-IsDeafScript
