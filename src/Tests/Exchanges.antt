-- ===== src/Tests/Exchanges.antt =====
-- Whole exchanges: a request through the loop and the handlers.
use localserver.Base.{
  ◌≤◌, ◌≡◌, ◌≢◌, refl, [], ◌∷◌, arith, length, done, none, panicked, append-nil, take, drop,
  take-append-drop, ◌<◌,
}
use localserver.Std.Text.{Bytes, chars, position}
use localserver.Std.Text.Lines.{join_lines}
use localserver.Std.Map.{get}
use localserver.Std.Keys.{number_key}
use localserver.Request.Message.{Request, parse}
use localserver.Request.Message.Format.{format_request}
use localserver.Handler.Build.{build_response}
use localserver.Handler.Build.Answers.{Answers, build_response-Answers}
use localserver.Server.{State, match_config, first_config, find_config, named, with_query}
use localserver.Server.Read.{Incoming, drained, handle_read}
use localserver.Server.Read.Reply.{Answered}
use localserver.Server.Read.Responds.{handle_read-responds}
use localserver.Server.Exchange.Early.{handle_read-early}
use localserver.Server.Write.Delivery.{Progress, on_writables}
use localserver.Response.{error, bad_request}
use localserver.Response.Serialize.{serialize_response}
use localserver.Server.Exchange.{Serves, request_of, exchange}
use localserver.Tests.Samples.{
  ascii_only, site, no_files, empty_world, no_processes, no_processes-AllCooperate, dawn, slow,
  quick, slow-IsHonest, quick-IsHonest,
}
use localserver.Tests.Written.{upload_line, plain_headers, plain_headers_fit, not_chunked}

abbrev upload : Bytes
upload =
    format_request (chars "POST") (chars "/upload") (chars "HTTP/1.1") plain_headers (chars "hi")

abbrev upload_request : Request
upload_request =
    request_of ascii_only (chars "POST") (chars "/upload") (chars "HTTP/1.1") plain_headers
      (chars "hi")

build_response-Answers_example :
    Answers no_files upload_request empty_world
      (build_response ascii_only no_files no_processes dawn site upload_request empty_world)
build_response-Answers_example =
    build_response-Answers ascii_only no_files no_processes dawn site no_processes-AllCooperate
      upload_request empty_world

abbrev accepted : State no_files
accepted = record {
  world = empty_world;
  read_buffers = (5, []) ∷ [];
  write_buffers = [];
  connect_times = (5, 0) ∷ [];
  calls = [];
}

abbrev all_of_it : Incoming
all_of_it = record { chunks = upload ∷ []; ending = drained }

abbrev garbage : Incoming
garbage = record { chunks = chars "GARBAGE" ∷ []; ending = drained }

garbage_calm : parse ascii_only (chars "GARBAGE") ≢ panicked
unfolding parse position
garbage_calm e = cc e

handle_read-responds_example :
    (after : State no_files) × (handle_read ascii_only no_files no_processes
        (site ∷ [])
        5
        garbage
        dawn
        accepted
      ≡ done after)
    × Answered ascii_only no_files no_processes
        (site ∷ [])
        5
        dawn
        empty_world
        (chars "GARBAGE")
        after
handle_read-responds_example =
    handle_read-responds ascii_only no_files no_processes site [] no_processes-AllCooperate 5
      garbage dawn accepted [] (unfold get in refl) refl garbage_calm

served_by_site : match_config (site ∷ []) upload_request ≡ done site
unfolding match_config first_config find_config named
served_by_site = refl

upload_fits : length upload ≤ site.client_max_body_size
unfolding format_request join_lines
upload_fits = omega arith

exchange_example :
    (after : State no_files) × (handle_read ascii_only no_files no_processes
        (site ∷ [])
        5
        all_of_it
        dawn
        accepted
      ≡ done after)
    × Serves ascii_only no_files no_processes site dawn
        (with_query upload_request)
        5
        (slow ∷ quick ∷ [])
        accepted
        after
exchange_example =
    exchange ascii_only no_files no_processes site [] no_processes-AllCooperate dawn (chars "POST")
      (chars "/upload") (chars "HTTP/1.1") plain_headers (chars "hi") upload_line plain_headers_fit
      not_chunked 5 all_of_it accepted (unfold get in refl) refl (append-nil upload) site
      served_by_site upload_fits (slow ∷ quick ∷ []) (slow-IsHonest, (quick-IsHonest, tt))

-- The first five bytes of the upload.
abbrev five_bytes : Incoming
five_bytes = record { chunks = take 5 upload ∷ []; ending = drained }

five_are_early :
    length (take 5 upload)
    < length (format_request (chars "POST") (chars "/upload") (chars "HTTP/1.1") plain_headers [])
unfolding format_request join_lines
five_are_early = omega arith

five_fit : length (take 5 upload) ≤ site.client_max_body_size
unfolding format_request join_lines
five_fit = omega arith

handle_read-early_example :
    (after final : State no_files) × (handle_read ascii_only no_files no_processes
        (site ∷ [])
        5
        five_bytes
        dawn
        accepted
      ≡ done after)
    × (get after.read_buffers 5 ≡ none)
    × (after.world ≡ empty_world)
    × (on_writables no_files 5 (slow ∷ quick ∷ []) after ≡ done final)
    × Progress no_files 5 (slow ∷ quick ∷ []) after final (serialize_response (error bad_request))
handle_read-early_example =
    handle_read-early ascii_only no_files no_processes site [] (chars "POST") (chars "/upload")
      (chars "HTTP/1.1") plain_headers (chars "hi") (take 5 upload) (drop 5 upload) upload_line
      plain_headers_fit (take-append-drop 5 upload) five_are_early five_fit 5 five_bytes dawn
      accepted (unfold get in refl) refl (append-nil (take 5 upload)) (slow ∷ quick ∷ [])
      (slow-IsHonest, (quick-IsHonest, tt))
