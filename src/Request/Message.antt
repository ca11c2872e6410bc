-- ===== src/Request/Message.antt =====
-- src/request.rs: `Method`, `Request`, `Request::parse` and the accessors.
pub mod Format
pub mod RoundTrip
pub mod Cookies
pub mod Sound
use mathlib.Core.Option
use localserver.Base.{
  ℕ, ◌+◌, ◌==◌, Bool, true, false, Option, none, some, List, [], ◌∷◌, if◌then◌else◌, take, drop,
  Outcome, done, question, ◌>>=◌,
}
use localserver.Std.Text.{
  Bytes, Text, chars, text_eq, trim, position, split_once, split, split_whitespace, lines, contains,
  Unicode, to_lowercase,
}
use localserver.Std.Utf8.{from_utf8_lossy}
use localserver.Std.Number.{from_str_radix, usize_bound}
use localserver.Std.Map
use localserver.Std.Map.{insert}
use localserver.Std.Keys.{text_key}
use localserver.Request.Chunked.{decode_chunked}

pub data Method : Type 0 where
  get post delete : Method
  unknown : Text → Method

abbrev pub Dict : Type 0
Dict = List (Text × Text)

pub record Request : Type 0 where
  pub method : Method
  pub path : Text
  pub version : Text
  pub headers : Dict
  pub body : Bytes

abbrev pub separator : Bytes
separator = chars "\r\n\r\n"

unfoldable pub parse_method : Text → Method
parse_method word =
    if text_eq word (chars "GET")
    then get
    else if text_eq word (chars "POST")
    then post
    else if text_eq word (chars "DELETE")
    then delete
    else unknown word

-- The first three words of the request line; any further ones are not looked at.
unfoldable pub parse_words : List Text → Option (Method × Text × Text)
unfolding parse_method
parse_words (m ∷ p ∷ v ∷ rest) = some (parse_method m, p, v)
parse_words _ = none

unfoldable pub parse_request_line : Text → Option (Method × Text × Text)
unfolding parse_words
parse_request_line line = parse_words (split_whitespace line)

-- A line with no colon is passed over; the key is lower case, and a later value replaces.
unfoldable pub add_header : Unicode → Dict → Text → Dict
add_header u headers line = elim (split_once b':' line) [
  | none ↦ headers
  | some (key, value) ↦ insert headers (to_lowercase u (trim key)) (trim value)
]

unfoldable pub parse_headers : Unicode → Dict → List Text → Dict
unfolding add_header
parse_headers u headers [] = headers
parse_headers u headers (line ∷ rest) = parse_headers u (add_header u headers line) rest

unfoldable pub is_chunked : Unicode → Dict → Bool
is_chunked u headers = elim (Map.get headers (chars "transfer-encoding")) [
  | none ↦ false
  | some v ↦ contains (to_lowercase u v) (chars "chunked")
]

-- What follows the blank line, decoded if the headers say so.
unfoldable pub finish : Unicode → Bytes → Dict → Method × Text × Text → Outcome Request
unfolding is_chunked
finish u raw headers (m, p, v) = do
  body ← (if is_chunked u headers then decode_chunked raw else done raw)
  done (record { method = m; path = p; version = v; headers = headers; body = body })

unfoldable pub parse_text : Unicode → Bytes → List Text → Outcome Request
unfolding parse_request_line parse_headers finish
parse_text u raw [] = question none
parse_text u raw (first_line ∷ rest) = do
  line ← question (parse_request_line first_line)
  finish u raw (parse_headers u [] rest) line

unfoldable pub parse : Unicode → Bytes → Outcome Request
unfolding parse_text
parse u buffer = do
  header_end ← question (position separator buffer)
  parse_text u (drop (header_end + 4) buffer) (lines (from_utf8_lossy (take header_end buffer)))

unfoldable pub add_cookie : Dict → Text → Dict
add_cookie cookies pair = elim (split_once b'=' (trim pair)) [
  | none ↦ cookies
  | some (key, value) ↦ insert cookies (trim key) (trim value)
]

unfoldable pub add_cookies : Dict → List Text → Dict
unfolding add_cookie
add_cookies cookies [] = cookies
add_cookies cookies (pair ∷ rest) = add_cookies (add_cookie cookies pair) rest

unfoldable pub cookies : Request → Dict
unfolding add_cookies
cookies r = elim (Map.get r.headers (chars "cookie")) [
  | none ↦ []
  | some v ↦ add_cookies [] (split (λ c. c == b';') v)
]

unfoldable pub session_id : Request → Option Text
unfolding cookies
session_id r = Map.get (cookies r) (chars "session_id")

unfoldable pub content_length : Request → ℕ
content_length r = elim (Map.get r.headers (chars "content-length")) [
  | none ↦ 0
  | some v ↦ Option.get_or (from_str_radix 10 usize_bound v) 0
]
