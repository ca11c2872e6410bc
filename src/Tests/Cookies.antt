-- ===== src/Tests/Cookies.antt =====
-- Cookies: `cookies` and `session_id` of src/request.rs.
use localserver.Base.{◌≡◌, refl, [], ◌∷◌, some}
use localserver.Std.Text.{Text, split, chars, is_whitespace, text_eq, trim, split_once}
use localserver.Std.Map
use localserver.Std.Map.{insert}
use localserver.Std.Keys.{text_key}
use localserver.Std.Utf8.{}
use localserver.Request.Chunked.{}
use localserver.Request.Chunked.RoundTrip.{}
use localserver.Request.Chunked.Total.{}
use localserver.Request.Message.{
  Dict, cookies, add_cookies, add_cookie, session_id, Request, parse_method,
}
use localserver.Request.Message.RoundTrip.{}
use localserver.Request.Message.Cookies.{AllCookies, cookie_line, last_value, cookies-cookie_line}
use localserver.Tests.Samples.{}

-- A client that sends three cookies, two of them under the same name.
abbrev with_cookies : Request
with_cookies = record {
  method = parse_method (chars "GET");
  path = chars "/whoami";
  version = chars "HTTP/1.1";
  headers = (chars "cookie", chars "user=sam; session_id=old; session_id=ab=c") ∷ [];
  body = [];
}

abbrev sent_cookies : Dict
sent_cookies = (chars "session_id", chars "old") ∷ (chars "session_id", chars "ab=c") ∷ []

sent_cookies_fit : AllCookies ((chars "user", chars "sam") ∷ sent_cookies)
unfolding is_whitespace
sent_cookies_fit = (
  record {
    name_no_space = refl;
    name_no_end = refl;
    name_no_equals = refl;
    value_no_space = refl;
    value_no_end = refl;
  },
  (
    record {
      name_no_space = refl;
      name_no_end = refl;
      name_no_equals = refl;
      value_no_space = refl;
      value_no_end = refl;
    },
    (
      record {
        name_no_space = refl;
        name_no_end = refl;
        name_no_equals = refl;
        value_no_space = refl;
        value_no_end = refl;
      },
      tt,
    ),
  ),
)

cookies-cookie_line_example :
    ((name : Text)
      → Map.get (cookies with_cookies) name
        ≡ last_value name ((chars "user", chars "sam") ∷ sent_cookies))
    × (session_id with_cookies
        ≡ last_value (chars "session_id") ((chars "user", chars "sam") ∷ sent_cookies))
cookies-cookie_line_example =
    cookies-cookie_line with_cookies (chars "user", chars "sam") sent_cookies sent_cookies_fit
      (unfold Map.get cookie_line text_eq in refl)

session_is_ab : session_id with_cookies ≡ some (chars "ab=c")
unfolding session_id cookies add_cookies add_cookie split split_once trim is_whitespace Map.get
    insert text_eq
session_is_ab = refl
