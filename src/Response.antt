-- ===== src/Response.antt =====
-- src/response.rs: a response; src/server.rs: `serialize_response`, the bytes that are sent.
pub mod Serialize
pub mod Send
use localserver.Base.{Option, none, some, List, [], ◌∷◌, ◌++◌}
use localserver.Std.Text.{Text, Bytes, chars}
use localserver.Std.Utf8.{into_bytes}

pub data StatusCode : Type 0 where
  okay bad_request forbidden not_found method_not_allowed content_too_large : StatusCode
  internal_server_error : StatusCode

unfoldable pub as_str : StatusCode → Text
as_str okay = chars "200 OK"
as_str bad_request = chars "400 Bad Request"
as_str forbidden = chars "403 Forbidden"
as_str not_found = chars "404 Not Found"
as_str method_not_allowed = chars "405 Method Not Allowed"
as_str content_too_large = chars "413 Content Too Large"
as_str internal_server_error = chars "500 Internal Server Error"

pub record Response : Type 0 where
  pub status : StatusCode
  pub content_type : Text
  pub body : Bytes
  pub cookies : List Text
  pub redirect_location : Option Text

unfoldable pub new : StatusCode → Text → Bytes → Response
new status content_type body = record {
  status = status;
  content_type = content_type;
  body = body;
  cookies = [];
  redirect_location = none;
}

unfoldable pub redirect : Text → Bytes → Response
unfolding new
redirect location body = record (new okay (chars "text/html") body) {
  redirect_location = some location;
}

unfoldable pub set_cookie : Text → Text → Response → Response
set_cookie name value r = record r {
  cookies = r.cookies ++ (name ++ b'=' ∷ (value ++ chars "; HttpOnly; SameSite=Strict")) ∷ [];
}

unfoldable pub error : StatusCode → Response
unfolding new as_str
error status =
    new status (chars "text/html")
      (into_bytes (chars "<html><body><h1>" ++ (as_str status ++ chars "</h1></body></html>")))
