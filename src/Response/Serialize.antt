-- ===== src/Response/Serialize.antt =====
-- src/server.rs: `serialize_response`.
pub mod Framing
use localserver.Base.{Option, none, some, List, [], ◌∷◌, ◌++◌, length}
use localserver.Std.Text.{Text, Bytes, chars}
use localserver.Std.Utf8.{into_bytes}
use localserver.Std.Number.{to_string}
use localserver.Response.{as_str, Response}

unfoldable pub status_text : Response → Text
unfolding as_str
status_text r = elim r.redirect_location [
  | some _ ↦ chars "301 Moved Permanently"
  | none ↦ as_str r.status
]

unfoldable pub location_header : Option Text → Text
location_header none = []
location_header (some l) = chars "Location: " ++ (l ++ chars "\r\n")

unfoldable pub cookie_headers : List Text → Text
cookie_headers [] = []
cookie_headers (c ∷ cs) = (chars "Set-Cookie: " ++ (c ++ chars "\r\n")) ++ cookie_headers cs

unfoldable pub response_head : Response → Text
unfolding status_text location_header cookie_headers
response_head r =
    chars "HTTP/1.1 "
    ++ (status_text r
        ++ (chars "\r\nContent-Type: "
            ++ (r.content_type
                ++ (chars "\r\nContent-Length: "
                    ++ (to_string (length r.body)
                        ++ (chars "\r\n"
                            ++ (location_header r.redirect_location
                                ++ (cookie_headers r.cookies ++ chars "\r\n"))))))))

unfoldable pub serialize_response : Response → Bytes
unfolding response_head
serialize_response r = into_bytes (response_head r) ++ r.body
