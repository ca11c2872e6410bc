-- ===== src/Tests/Requests.antt =====
-- Requests: src/request.rs.
use localserver.Base.{
  ℕ, ◌<◌, ◌≤◌, ◌+◌, ◌-◌, ◌≡◌, ◌≢◌, refl, List, [], ◌∷◌, ◌++◌, arith, length, done, refused,
  panicked, out_of_fuel,
}
use localserver.Std.Text.{
  Bytes, chars, position, is_whitespace, to_lowercase, text_eq, trim, contains, lines,
  split_whitespace, split_once,
}
use localserver.Std.Map
use localserver.Std.Map.{insert}
use localserver.Std.Keys.{text_key}
use localserver.Std.Slice.{slice_from, slice}
use localserver.Std.Utf8.{from_utf8, from_utf8_lossy}
use localserver.Std.Number.{usize_bound, to_string_radix, from_str_radix}
use localserver.Request.Chunked.{crlf, decode_chunked}
use localserver.Request.Chunked.Encode.{hex, encode_chunks, payload}
use localserver.Request.Chunked.RoundTrip.{AllNonempty, last_chunk, decode_chunked-encode_chunks}
use localserver.Request.Chunked.Panic.{decode_chunked-wraps}
use localserver.Request.Chunked.Total.{length-decode_chunked}
use localserver.Request.Message.{Method, Request, parse, parse_method}
use localserver.Request.Message.Format.{format_request, lower_headers}
use localserver.Request.Message.RoundTrip.{
  parse-format_request, parse-format_request_chunked, parse-cut_chunk,
}
use localserver.Request.Message.Sound.{parse-finishes, IsReadFrom, parse-IsReadFrom}
use localserver.Tests.Samples.{ascii_only}
use localserver.Tests.Written.{
  upload_line, plain_headers, chunked_headers, plain_headers_fit, chunked_headers_fit, not_chunked,
  chunked,
}

abbrev hello_world : List Bytes
hello_world = chars "hello" ∷ chars " world" ∷ []

hello_world_full : AllNonempty hello_world
hello_world_full = (λ e. cc e, (λ e. cc e, tt))

chunked_sample :
    decode_chunked (chars "5\r\nhello\r\n6\r\n world\r\n0\r\n\r\n") ≡ done (chars "hello world")
unfolding decode_chunked slice_from slice position from_utf8 trim is_whitespace from_str_radix
chunked_sample = refl

malformed_size : decode_chunked (chars "gg\r\nhello\r\n0\r\n\r\n") ≡ refused
unfolding decode_chunked slice_from slice position from_utf8 trim is_whitespace from_str_radix
malformed_size = refl

cut_sample : decode_chunked (chars "5\r\nhello") ≡ panicked
unfolding decode_chunked slice_from slice position from_utf8 trim is_whitespace from_str_radix
cut_sample = refl

encoded_small : length (encode_chunks hello_world ++ (last_chunk ++ crlf)) < usize_bound
unfolding encode_chunks to_string_radix
encoded_small = omega arith

decode_chunked-encode_chunks_example :
    decode_chunked (encode_chunks hello_world ++ (last_chunk ++ crlf)) ≡ done (payload hello_world)
decode_chunked-encode_chunks_example =
    decode_chunked-encode_chunks hello_world crlf hello_world_full encoded_small

length-decode_chunked_example :
    length (chars "hello world") ≤ length (chars "5\r\nhello\r\n6\r\n world\r\n0\r\n\r\n")
length-decode_chunked_example =
    length-decode_chunked (chars "5\r\nhello\r\n6\r\n world\r\n0\r\n\r\n") chunked_sample

abbrev huge : ℕ
huge = usize_bound - 1

huge_wraps : usize_bound ≤ length (encode_chunks []) + length (hex huge) + 2 + huge
unfolding encode_chunks to_string_radix
huge_wraps = omega arith

huge_small : length (encode_chunks [] ++ (hex huge ++ (crlf ++ chars "abc"))) < usize_bound
unfolding encode_chunks to_string_radix
huge_small = omega arith

decode_chunked-wraps_example :
    decode_chunked (encode_chunks [] ++ (hex huge ++ (crlf ++ chars "abc"))) ≡ panicked
decode_chunked-wraps_example =
    decode_chunked-wraps [] huge (chars "abc") tt (omega arith) huge_wraps huge_small

parse-format_request_example :
    parse ascii_only (
      format_request
        (chars "POST")
        (chars "/upload")
        (chars "HTTP/1.1")
        plain_headers
        (0xFF ∷ 0xFE ∷ []))
    ≡ done (record {
      method = parse_method (chars "POST");
      path = chars "/upload";
      version = chars "HTTP/1.1";
      headers = lower_headers ascii_only [] plain_headers;
      body = 0xFF ∷ 0xFE ∷ [];
    })
parse-format_request_example =
    parse-format_request ascii_only (chars "POST") (chars "/upload") (chars "HTTP/1.1")
      plain_headers upload_line plain_headers_fit (0xFF ∷ 0xFE ∷ []) not_chunked

parse-format_request_chunked_example :
    parse ascii_only (
      format_request
        (chars "POST")
        (chars "/upload")
        (chars "HTTP/1.1")
        chunked_headers
        (encode_chunks hello_world ++ (last_chunk ++ crlf)))
    ≡ done (record {
      method = parse_method (chars "POST");
      path = chars "/upload";
      version = chars "HTTP/1.1";
      headers = lower_headers ascii_only [] chunked_headers;
      body = payload hello_world;
    })
parse-format_request_chunked_example =
    parse-format_request_chunked ascii_only (chars "POST") (chars "/upload") (chars "HTTP/1.1")
      chunked_headers upload_line chunked_headers_fit hello_world crlf chunked hello_world_full
      encoded_small

cut_small :
    length (encode_chunks [] ++ (hex (length (chars "hello")) ++ (crlf ++ chars "hello")))
    < usize_bound
unfolding encode_chunks to_string_radix
cut_small = omega arith

parse-cut_chunk_example :
    parse ascii_only (
      format_request
        (chars "POST")
        (chars "/upload")
        (chars "HTTP/1.1")
        chunked_headers
        (encode_chunks [] ++ (hex (length (chars "hello")) ++ (crlf ++ chars "hello"))))
    ≡ panicked
parse-cut_chunk_example =
    parse-cut_chunk ascii_only (chars "POST") (chars "/upload") (chars "HTTP/1.1") chunked_headers
      upload_line chunked_headers_fit [] (chars "hello") chunked tt (λ e. cc e) cut_small

parse-finishes_example : parse ascii_only (chars "GARBAGE") ≢ out_of_fuel
parse-finishes_example = parse-finishes ascii_only (chars "GARBAGE")

abbrev get_root : Bytes
get_root = chars "GET / HTTP/1.1\r\nHost: a\r\n\r\nhi"

abbrev root_request : Request
root_request = record {
  method = Method.get;
  path = chars "/";
  version = chars "HTTP/1.1";
  headers = (chars "host", chars "a") ∷ [];
  body = chars "hi";
}

parse-get_root : parse ascii_only get_root ≡ done root_request
unfolding parse position from_utf8_lossy lines split_whitespace is_whitespace text_eq split_once
    trim to_lowercase insert Map.get contains
parse-get_root = refl

parse-IsReadFrom_example : IsReadFrom ascii_only get_root root_request
parse-IsReadFrom_example = parse-IsReadFrom ascii_only get_root root_request parse-get_root
