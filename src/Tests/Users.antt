-- ===== src/Tests/Users.antt =====
-- The user handlers: src/handler.rs.
use localserver.Base.{◌-◌, ◌≡◌, refl, true, [], ◌∷◌, ◌++◌, arith, ltb, if◌then◌else◌}
use localserver.Std.Text.{Text, chars, text_eq, split, split_once}
use localserver.Std.Utf8.{from_utf8_lossy}
use localserver.Std.Map.{get, insert}
use localserver.Request.Message.{Method, Request}
use localserver.Response.{forbidden, new, set_cookie}
use localserver.Session.{empty_store, lifetime}
use localserver.Session.Identifier.{generate_id}
use localserver.Handler.Files.{error_response}
use localserver.Handler.Users.{
  is_admin, form_params, page, handle_login, handle_logout, handle_whoami,
}
use localserver.Handler.Users.Flow.{SendsBack, cookie_pair, handle_login-whoami}
use localserver.Tests.Samples.{site, no_files, dawn}

abbrev pub login_request : Request
login_request = record {
  method = Method.post;
  path = chars "/login";
  version = chars "HTTP/1.1";
  headers = [];
  body = chars "username=admin&password=secret";
}

pub login_request_valid : is_admin login_request ≡ true
unfolding is_admin form_params split split_once from_utf8_lossy insert get text_eq
login_request_valid = refl

abbrev cookie : Text
cookie = chars "session_id=" ++ (generate_id 0 1 ++ chars "; HttpOnly; SameSite=Strict")

abbrev pub next_request : Request
next_request = record login_request {
  method = Method.get;
  path = chars "/whoami";
  headers = (chars "cookie", cookie_pair cookie) ∷ [];
  body = [];
}

pub next_request-SendsBack : SendsBack (handle_login dawn login_request empty_store).0 next_request
unfolding handle_login set_cookie new is_admin form_params split split_once from_utf8_lossy insert
    get text_eq
next_request-SendsBack = (cookie, [], refl, refl)

handle_login-whoami_example :
    ((handle_whoami no_files tt dawn next_request site
        (handle_login dawn login_request empty_store).1).0
      ≡ (if ltb lifetime (dawn.now - dawn.begun)
          then error_response no_files tt forbidden site
          else page (chars "You are: admin")))
    × ((handle_whoami no_files tt dawn next_request site
          (handle_logout next_request (handle_login dawn login_request empty_store).1).1).0
        ≡ error_response no_files tt forbidden site)
handle_login-whoami_example =
    handle_login-whoami no_files tt site dawn dawn login_request next_request empty_store
      login_request_valid (omega arith) next_request-SendsBack
