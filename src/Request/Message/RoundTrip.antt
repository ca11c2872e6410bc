-- ===== src/Request/Message/RoundTrip.antt =====
-- `Request::parse` reads back a request that a client wrote, chunked or not.
use localserver.Base.{
  ℕ, ◌+◌, ◌<◌, ◌≡◌, ◌≢◌, refl, ◌∙◌, Bool, true, false, List, [], ◌∷◌, ◌++◌, all-append, length,
  drop, take-append, drop-add-append, ltb, done, panicked,
}
use localserver.Std.Text.{Text, Bytes, Unicode}
use localserver.Std.Text.Split.{IsWord, space}
use localserver.Std.Text.Lines.{
  AllLines, join_lines, separator, position-join_lines, lines-join_lines, EachLine, all-join_lines,
}
use localserver.Std.Utf8.{is_ascii, from_utf8_lossy-ascii}
use localserver.Std.Number.{usize_bound}
use localserver.Request.Chunked.{crlf}
use localserver.Request.Chunked.Encode.{hex, encode_chunks, payload}
use localserver.Request.Chunked.RoundTrip.{AllNonempty, last_chunk, decode_chunked-encode_chunks}
use localserver.Request.Chunked.Panic.{decode_chunked-cut}
use localserver.Request.Message.{Dict, parse_method, parse, finish, is_chunked}
use localserver.Request.Message.Format.{
  request_line, header_lines, AllHeaders, format_request, lower_headers, request_line-IsLine,
  header_lines-AllLines, parse_headers-header_lines, parse_request_line-words,
}

abbrev below_128 : ℕ → Bool
below_128 c = ltb c 0x80

header_lines-ascii : (hs : Dict) → AllHeaders hs → EachLine below_128 refl refl (header_lines hs)
header_lines-ascii [] k = tt
header_lines-ascii (h ∷ hs) (k, ks) =
    (all-append below_128 h.0 _ k.key_ascii k.value_ascii, header_lines-ascii hs ks)

-- The words of a request line, in ASCII.
pub record IsRequestLine (m p v : Text) : Type 0 where
  pub method_word : IsWord m
  pub path_word : IsWord p
  pub version_word : IsWord v
  pub method_ascii : is_ascii m ≡ true
  pub path_ascii : is_ascii p ≡ true
  pub version_ascii : is_ascii v ≡ true

module _ (u : Unicode) (m p v : Text) (hs : Dict) (w : IsRequestLine m p v)
    (k : AllHeaders hs) where
  head-ascii : is_ascii (join_lines (request_line m p v) (header_lines hs)) ≡ true
  head-ascii =
      all-join_lines below_128 refl refl (request_line m p v) (header_lines hs)
        (all-append below_128 m _ w.method_ascii
          (all-append below_128 p (space ∷ v) w.path_ascii w.version_ascii))
        (header_lines-ascii hs k)

  -- The head is read for what it says, and the rest of the bytes is the raw body.
  parse-head :
      (body : Bytes)
      → parse u (format_request m p v hs body)
        ≡ finish u body (lower_headers u [] hs) (parse_method m, p, v)
  unfolding parse format_request
  parse-head body =
      let head : Text = join_lines (request_line m p v) (header_lines hs) in
      let lined : AllLines (request_line m p v ∷ header_lines hs) = (
        request_line-IsLine m p v w.method_word w.path_word w.version_word,
        header_lines-AllLines hs k,
      ) in
      let body_behind : drop (length head + 4) (head ++ (separator ++ body)) ≡ body =
        drop-add-append head 4 (separator ++ body) in
      rw (
        position-join_lines (request_line m p v) (header_lines hs) body lined,
        take-append head (separator ++ body),
        body_behind,
        from_utf8_lossy-ascii head head-ascii,
        lines-join_lines (request_line m p v) (header_lines hs) lined,
        parse_request_line-words m p v w.method_word w.path_word w.version_word,
        parse_headers-header_lines u [] hs k,
      )

  -- A request that is not chunked is read as its parts, with the body byte for byte.
  pub parse-format_request :
      (body : Bytes)
      → is_chunked u (lower_headers u [] hs) ≡ false
      → parse u (format_request m p v hs body)
        ≡ done (record {
          method = parse_method m;
          path = p;
          version = v;
          headers = lower_headers u [] hs;
          body = body;
        })
  parse-format_request body plain = parse-head body ∙ unfold finish in rw plain

  -- A chunked request is read with the body that its chunks carry.
  pub parse-format_request_chunked :
      (cs : List Bytes) (trailer : Bytes)
      → is_chunked u (lower_headers u [] hs) ≡ true
      → AllNonempty cs
      → length (encode_chunks cs ++ (last_chunk ++ trailer)) < usize_bound
      → parse u (format_request m p v hs (encode_chunks cs ++ (last_chunk ++ trailer)))
        ≡ done (record {
          method = parse_method m;
          path = p;
          version = v;
          headers = lower_headers u [] hs;
          body = payload cs;
        })
  parse-format_request_chunked cs trailer chunked full small =
      parse-head (encode_chunks cs ++ (last_chunk ++ trailer))
      ∙ unfold finish in rw (chunked, decode_chunked-encode_chunks cs trailer full small)

  -- A chunked request that stops behind the bytes of a chunk makes `Request::parse` panic.
  pub parse-cut_chunk :
      (cs : List Bytes) (c : Bytes)
      → is_chunked u (lower_headers u [] hs) ≡ true
      → AllNonempty cs
      → c ≢ []
      → length (encode_chunks cs ++ (hex (length c) ++ (crlf ++ c))) < usize_bound
      → parse u (format_request m p v hs (encode_chunks cs ++ (hex (length c) ++ (crlf ++ c))))
        ≡ panicked
  parse-cut_chunk cs c chunked full more small =
      parse-head (encode_chunks cs ++ (hex (length c) ++ (crlf ++ c)))
      ∙ unfold finish in rw (chunked, decode_chunked-cut cs c full more small)
