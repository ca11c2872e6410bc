-- ===== src/Tests/Uploads.antt =====
-- A file that one client uploads and another fetches, from bytes to bytes.
use mathlib.Core.Option
use localserver.Base.{◌≡◌, refl, true, none, [], ◌∷◌, arith, done, append-nil}
use localserver.Std.Text.{
  Text, Bytes, chars, is_whitespace, split_once, text_eq, starts_with, trim_end_matches,
}
use localserver.Std.Text.Lines.{join_lines}
use localserver.Std.Map
use localserver.Std.Map.{get, insert}
use localserver.Std.Keys.{number_key, text_key}
use localserver.Session.{empty_store}
use localserver.Request.Message.{Method, Request, parse_method}
use localserver.Request.Message.Format.{format_request}
use localserver.Request.Message.RoundTrip.{IsRequestLine}
use localserver.Response.{Response, okay, not_found, new}
use localserver.Response.Serialize.{serialize_response}
use localserver.Handler.World.{World}
use localserver.Handler.Listing.{parent}
use localserver.Handler.Route.{
  match_location, matching, longest, max_by_len, is_method_allowed, find_cgi,
}
use localserver.Handler.Files.{
  trim_slashes, error_response, handle_delete, get_content_type, handle_post, make_parent,
  write_file, uploaded_page,
}
use localserver.Handler.Build.{build_response, session_route, handle_with_route, handle_at}
use localserver.Handler.Build.Upload.{IsFilePath, build_response-deleted}
use localserver.Server.{State, match_config, first_config, find_config, named, with_query}
use localserver.Server.Read.{drained, handle_read}
use localserver.Server.Write.Delivery.{Progress, on_writables}
use localserver.Server.Exchange.{request_of}
use localserver.Server.Exchange.Upload.{Visit, exchange-uploaded}
use localserver.Tests.Samples.{
  ascii_only, place, site, no_processes, no_processes-AllCooperate, dawn, slow, quick,
  slow-IsHonest, quick-IsHonest,
}
use localserver.Tests.Written.{plain_headers, plain_headers_fit, not_chunked}
use localserver.Tests.Files.{drive, drive-IsFileSystem}

abbrev name : Text
name = chars "/note.txt"

line_of :
    (method : Text)
    → IsRequestLine (chars "POST") name (chars "HTTP/1.1")
      × IsRequestLine (chars "GET") name (chars "HTTP/1.1")
unfolding is_whitespace
line_of method = (
  record {
    method_word = record { some_char = refl; no_space = refl };
    path_word = record { some_char = refl; no_space = refl };
    version_word = record { some_char = refl; no_space = refl };
    method_ascii = refl;
    path_ascii = refl;
    version_ascii = refl;
  },
  record {
    method_word = record { some_char = refl; no_space = refl };
    path_word = record { some_char = refl; no_space = refl };
    version_word = record { some_char = refl; no_space = refl };
    method_ascii = refl;
    path_ascii = refl;
    version_ascii = refl;
  },
)

abbrev connection : World drive → State drive
connection w = record {
  world = w;
  read_buffers = (5, []) ∷ [];
  write_buffers = [];
  connect_times = (5, 0) ∷ [];
  calls = [];
}

abbrev bytes_of : Text → Bytes → Bytes
bytes_of method body = format_request method name (chars "HTTP/1.1") plain_headers body

abbrev empty_drive : World drive
empty_drive = record { disk = []; store = empty_store }

abbrev with_note : World drive
with_note = record { disk = (chars "./www/note.txt", chars "remember") ∷ []; store = empty_store }

abbrev upload : Visit ascii_only drive (site ∷ []) site (chars "POST") name
unfolding get match_config first_config find_config named format_request join_lines
upload = record {
  version = chars "HTTP/1.1";
  headers = plain_headers;
  body = chars "remember";
  fd = 5;
  incoming = record { chunks = bytes_of (chars "POST") (chars "remember") ∷ []; ending = drained };
  before = connection empty_drive;
  moment = dawn;
  line = (line_of []).0;
  all_headers = plain_headers_fit;
  plain = not_chunked;
  fresh = refl;
  at_end = refl;
  arrived = append-nil (bytes_of (chars "POST") (chars "remember"));
  chosen = refl;
  fits = omega arith;
}

abbrev fetch : Visit ascii_only drive (site ∷ []) site (chars "GET") name
unfolding get match_config first_config find_config named format_request join_lines
fetch = record {
  version = chars "HTTP/1.1";
  headers = plain_headers;
  body = [];
  fd = 5;
  incoming = record { chunks = bytes_of (chars "GET") [] ∷ []; ending = drained };
  before = connection with_note;
  moment = dawn;
  line = (line_of []).1;
  all_headers = plain_headers_fit;
  plain = not_chunked;
  fresh = refl;
  at_end = refl;
  arrived = append-nil (bytes_of (chars "GET") []);
  chosen = refl;
  fits = omega arith;
}

note_path : IsFilePath site name (place (chars "/") (chars "./www"))
unfolding match_location matching longest max_by_len starts_with find_cgi text_eq Option.bind
note_path = record {
  found = refl;
  stays = refl;
  no_script = refl;
  no_login = refl;
  no_logout = refl;
  no_whoami = refl;
}

no_query : split_once b'?' name ≡ none
unfolding split_once
no_query = refl

post_allowed : is_method_allowed Method.post (place (chars "/") (chars "./www")) ≡ true
unfolding is_method_allowed
post_allowed = refl

get_allowed : is_method_allowed Method.get (place (chars "/") (chars "./www")) ≡ true
unfolding is_method_allowed
get_allowed = refl

uploaded :
    build_response ascii_only drive no_processes dawn site
      (with_query (
        request_of ascii_only
          (chars "POST")
          name
          (chars "HTTP/1.1")
          plain_headers
          (chars "remember")))
      empty_drive
    ≡ done (new okay (chars "text/html") (uploaded_page drive name), with_note)
unfolding build_response session_route handle_with_route handle_at with_query split_once insert
    parse_method text_eq match_location matching longest max_by_len starts_with is_method_allowed
    find_cgi Option.bind handle_post make_parent write_file parent trim_end_matches
uploaded = refl

exchange-uploaded_example :
    (after final : State drive) × (handle_read ascii_only drive no_processes
        (site ∷ [])
        5
        fetch.incoming
        dawn
        fetch.before
      ≡ done after)
    × (on_writables drive 5 (slow ∷ quick ∷ []) after ≡ done final)
    × Progress drive 5
        (slow ∷ quick ∷ [])
        after
        final
        (serialize_response (new okay (get_content_type name) (chars "remember")))
unfolding upload fetch
exchange-uploaded_example =
    exchange-uploaded ascii_only drive no_processes site [] site no_processes-AllCooperate
      drive-IsFileSystem name (place (chars "/") (chars "./www")) no_query note_path post_allowed
      get_allowed upload (new okay (chars "text/html") (uploaded_page drive name)) with_note
      uploaded (unfold new in refl) fetch refl (slow ∷ quick ∷ [])
      (slow-IsHonest, (quick-IsHonest, tt))

abbrev removal : Request
removal = record {
  method = Method.delete;
  path = name;
  version = chars "HTTP/1.1";
  headers = [];
  body = [];
}

delete_allowed : is_method_allowed Method.delete (place (chars "/") (chars "./www")) ≡ true
unfolding is_method_allowed
delete_allowed = refl

plain_name : trim_slashes name ≡ name
unfolding trim_end_matches
plain_name = refl

abbrev deleted_page : Response
deleted_page = (handle_delete drive with_note.disk removal (chars "./www") site).0

removed :
    build_response ascii_only drive no_processes dawn site removal with_note
    ≡ done (deleted_page, empty_drive)
unfolding build_response session_route handle_with_route handle_at text_eq match_location matching
    longest max_by_len starts_with is_method_allowed find_cgi Option.bind handle_delete Map.remove
removed = refl

build_response-deleted_example :
    build_response ascii_only drive no_processes dawn site
      (record removal { method = Method.get })
      empty_drive
    ≡ done (error_response drive empty_drive.disk not_found site, empty_drive)
build_response-deleted_example =
    build_response-deleted ascii_only drive no_processes site (place (chars "/") (chars "./www"))
      drive-IsFileSystem dawn dawn removal (record removal { method = Method.get }) with_note
      empty_drive empty_drive deleted_page note_path delete_allowed get_allowed refl refl refl
      plain_name removed (unfold handle_delete new in refl) refl
