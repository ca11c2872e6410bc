-- ===== src/Tests/Written.antt =====
-- Requests that a client writes, for the tests.
use localserver.Base.{◌≡◌, refl, true, false, [], ◌∷◌}
use localserver.Std.Text.{chars, is_whitespace, to_lowercase, text_eq, trim, contains}
use localserver.Std.Map
use localserver.Std.Map.{insert}
use localserver.Request.Message.{Dict, is_chunked}
use localserver.Request.Message.Format.{AllHeaders, lower_headers}
use localserver.Request.Message.RoundTrip.{IsRequestLine}
use localserver.Tests.Samples.{ascii_only}

pub upload_line : IsRequestLine (chars "POST") (chars "/upload") (chars "HTTP/1.1")
unfolding is_whitespace
upload_line = record {
  method_word = record { some_char = refl; no_space = refl };
  path_word = record { some_char = refl; no_space = refl };
  version_word = record { some_char = refl; no_space = refl };
  method_ascii = refl;
  path_ascii = refl;
  version_ascii = refl;
}

abbrev pub plain_headers : Dict
plain_headers = (chars "Host", chars "localhost:8080") ∷ []

abbrev pub chunked_headers : Dict
chunked_headers = (chars "Transfer-Encoding", chars "chunked") ∷ []

pub plain_headers_fit : AllHeaders plain_headers
unfolding is_whitespace trim
plain_headers_fit = (
  record {
    key_word = record { some_char = refl; no_space = refl };
    key_no_colon = refl;
    key_ascii = refl;
    value_trimmed = refl;
    value_no_cr = refl;
    value_no_lf = refl;
    value_ascii = refl;
  },
  tt,
)

pub chunked_headers_fit : AllHeaders chunked_headers
unfolding is_whitespace trim
chunked_headers_fit = (
  record {
    key_word = record { some_char = refl; no_space = refl };
    key_no_colon = refl;
    key_ascii = refl;
    value_trimmed = refl;
    value_no_cr = refl;
    value_no_lf = refl;
    value_ascii = refl;
  },
  tt,
)

pub not_chunked : is_chunked ascii_only (lower_headers ascii_only [] plain_headers) ≡ false
unfolding is_chunked lower_headers to_lowercase insert Map.get text_eq contains
not_chunked = refl

pub chunked : is_chunked ascii_only (lower_headers ascii_only [] chunked_headers) ≡ true
unfolding is_chunked lower_headers to_lowercase insert Map.get text_eq contains
chunked = refl
