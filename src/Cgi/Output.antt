-- ===== src/Cgi/Output.antt =====
-- src/cgi.rs: `parse_cgi_output`.
use mathlib.Core.Option
use localserver.Base.{◌+◌, ◌==◌, Option, none, some, List, [], ◌∷◌, if◌then◌else◌, take, drop}
use localserver.Std.Text.{
  Bytes, Text, chars, text_eq, trim, position, split_once, split_whitespace, lines, Unicode,
  to_lowercase,
}
use localserver.Std.Utf8.{from_utf8_lossy}
use localserver.Std.Number.{from_str_radix, u16_bound}
use localserver.Response.{
  StatusCode, okay, bad_request, forbidden, not_found, internal_server_error, Response, new, error,
}

-- The head and the body: at a blank line with carriage returns, or else at one without.
unfoldable pub split_output : Bytes → Option (Bytes × Bytes)
split_output output = elim (position (chars "\r\n\r\n") output) [
  | some pos ↦ some (take pos output, drop (pos + 4) output)
  | none ↦
      Option.map (λ pos. (take pos output, drop (pos + 2) output)) (position (chars "\n\n") output)
]

first_word : List Text → Option Text
first_word [] = none
first_word (w ∷ ws) = some w

-- The status of a `Status` header's value; one that is no number counts as 200.
unfoldable pub status_of : Text → StatusCode
unfolding first_word
status_of value =
    let code =
      Option.get_or
        (Option.bind (first_word (split_whitespace (trim value))) (from_str_radix 10 u16_bound))
        200 in
    if code == 200
    then okay
    else if code == 400
    then bad_request
    else if code == 403
    then forbidden
    else if code == 404
    then not_found
    else if code == 500
    then internal_server_error
    else okay

-- The content type and the status, as far as the lines have said.
unfoldable pub read_header : Unicode → Text × StatusCode → Text → Text × StatusCode
unfolding status_of
read_header u (content_type, status) line = elim (split_once b':' line) [
  | none ↦ (content_type, status)
  | some (key, value) ↦
      let name = to_lowercase u (trim key) in
      if text_eq name (chars "content-type")
      then (trim value, status)
      else if text_eq name (chars "status")
      then (content_type, status_of value)
      else (content_type, status)
]

unfoldable pub read_headers : Unicode → Text × StatusCode → List Text → Text × StatusCode
unfolding read_header
read_headers u found [] = found
read_headers u found (line ∷ rest) = read_headers u (read_header u found line) rest

unfoldable pub parse_cgi_output : Unicode → Bytes → Response
unfolding split_output read_headers
parse_cgi_output u output = elim (split_output output) [
  | none ↦ error internal_server_error
  | some (head, body) ↦
      let (content_type, status) =
        read_headers u (chars "text/html", okay) (lines (from_utf8_lossy head)) in
      new status content_type body
]
