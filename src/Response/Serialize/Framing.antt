-- ===== src/Response/Serialize/Framing.antt =====
-- A client that cuts the bytes of a response at the first blank line reads the lines of the head
-- and the body.
use mathlib.Core.Option
use localserver.Base.{
  ℕ, ◌+◌, ◌<◌, ◌≡◌, refl, sym, ap, ◌∙◌, true, Option, none, some, List, [], ◌∷◌, ◌++◌, map,
  append_assoc, append-nil, arith, all, all-append, length, take, drop, take-append,
  drop-add-append,
}
use localserver.Std.Text.{Text, Bytes, chars, position, lines}
use localserver.Std.Text.Position.{without}
use localserver.Std.Text.Lines.{
  IsLine, AllLines, join_lines, separator, lines-join_lines, position-join_lines,
}
use localserver.Std.Utf8.{into_bytes}
use localserver.Std.Number.{to_string, is_hex, to_string_radix-hex, usize_bound}
use localserver.Response.{
  StatusCode, okay, bad_request, forbidden, not_found, method_not_allowed, content_too_large,
  internal_server_error, Response, as_str,
}
use localserver.Response.Serialize.{
  serialize_response, response_head, status_text, location_header, cookie_headers,
}
use localserver.Std.Utf8.Lines.{into_bytes-append, into_bytes-join_lines, into_bytes-AllLines}

-- The lines of the head.
abbrev pub status_line : Response → Text
status_line r = chars "HTTP/1.1 " ++ status_text r

abbrev pub cookie_lines : List Text → List Text
cookie_lines [] = []
cookie_lines (c ∷ cs) = (chars "Set-Cookie: " ++ c) ∷ cookie_lines cs

abbrev pub location_lines : Option Text → List Text
location_lines none = []
location_lines (some l) = (chars "Location: " ++ l) ∷ []

abbrev pub header_lines : Response → List Text
header_lines r =
    (chars "Content-Type: " ++ r.content_type)
    ∷ (chars "Content-Length: " ++ to_string (length r.body))
    ∷ (location_lines r.redirect_location ++ cookie_lines r.cookies)

abbrev eol : Text → Text
eol s = b'\r' ∷ b'\n' ∷ s

cookie_headers-lines :
    (s : Text) (cs : List Text)
    → s ++ eol (cookie_headers cs ++ chars "\r\n") ≡ join_lines s (cookie_lines cs) ++ separator
unfolding cookie_headers join_lines
cookie_headers-lines s [] = rw (append-nil s) refl
cookie_headers-lines s (c ∷ cs) =
    let line = chars "Set-Cookie: " ++ c in
    let apart : (chars "Set-Cookie: " ++ (c ++ chars "\r\n") ++ cookie_headers cs) ++ chars "\r\n"
        ≡ line ++ eol (cookie_headers cs ++ chars "\r\n") =
      simp append_assoc in
    ap (λ x. s ++ eol x) (apart ∙ cookie_headers-lines line cs)
    ∙ sym (append_assoc s (eol (join_lines line (cookie_lines cs))) separator)

location_header-lines :
    (s : Text) (o : Option Text) (cs : List Text)
    → s ++ eol (location_header o ++ (cookie_headers cs ++ chars "\r\n"))
      ≡ join_lines s (location_lines o ++ cookie_lines cs) ++ separator
unfolding location_header join_lines
location_header-lines s none cs = cookie_headers-lines s cs
location_header-lines s (some l) cs =
    let line = chars "Location: " ++ l in
    let apart : (chars "Location: " ++ (l ++ chars "\r\n")) ++ (cookie_headers cs ++ chars "\r\n")
        ≡ line ++ eol (cookie_headers cs ++ chars "\r\n") =
      simp append_assoc in
    ap (λ x. s ++ eol x) (apart ∙ cookie_headers-lines line cs)
    ∙ sym (append_assoc s (eol (join_lines line (cookie_lines cs))) separator)

response_head-lines :
    (r : Response) → response_head r ≡ join_lines (status_line r) (header_lines r) ++ separator
unfolding response_head join_lines
response_head-lines r =
    let tail =
      location_header-lines (chars "Content-Length: " ++ to_string (length r.body))
        r.redirect_location r.cookies in
    ap
      (λ x.
        chars "HTTP/1.1 "
        ++ (status_text r ++ (chars "\r\nContent-Type: " ++ (r.content_type ++ eol x))))
      tail
    ∙ simp append_assoc

-- No line end in a text.
abbrev pub OneLine : Text → Type 0
OneLine s = (without b'\r' s ≡ true) × (without b'\n' s ≡ true)

abbrev pub AllOneLine : List Text → Type 0
AllOneLine [] = Unit
AllOneLine (s ∷ l) = OneLine s × AllOneLine l

abbrev pub NoneOrOneLine : Option Text → Type 0
NoneOrOneLine none = Unit
NoneOrOneLine (some s) = OneLine s

-- What the handlers put into a response's head lies on one line.
pub record IsPlain (r : Response) : Type 0 where
  pub content_type : OneLine r.content_type
  pub cookies : AllOneLine r.cookies
  pub location : NoneOrOneLine r.redirect_location

-- A line that begins with a label.
labelled-IsLine :
    (c : ℕ) (label s : Text) → OneLine (c ∷ label) → OneLine s → IsLine ((c ∷ label) ++ s)
labelled-IsLine c label s (cr, lf) (no_cr, no_lf) = record {
  some_char = refl;
  no_cr = all-append _ (c ∷ label) s cr no_cr;
  no_lf = all-append _ (c ∷ label) s lf no_lf;
}

AllLines-append : (l m : List Text) → AllLines l → AllLines m → AllLines (l ++ m)
AllLines-append [] m h k = k
AllLines-append (s ∷ l) m (h, hs) k = (h, AllLines-append l m hs k)

cookie_lines-AllLines : (cs : List Text) → AllOneLine cs → AllLines (cookie_lines cs)
cookie_lines-AllLines [] h = tt
cookie_lines-AllLines (c ∷ cs) (h, hs) =
    (labelled-IsLine b'S' (chars "et-Cookie: ") c (refl, refl) h, cookie_lines-AllLines cs hs)

location_lines-AllLines : (o : Option Text) → NoneOrOneLine o → AllLines (location_lines o)
location_lines-AllLines none h = tt
location_lines-AllLines (some l) h = (labelled-IsLine b'L' (chars "ocation: ") l (refl, refl) h, tt)

as_str-OneLine : (status : StatusCode) → OneLine (as_str status)
unfolding as_str
as_str-OneLine okay = (refl, refl)
as_str-OneLine bad_request = (refl, refl)
as_str-OneLine forbidden = (refl, refl)
as_str-OneLine not_found = (refl, refl)
as_str-OneLine method_not_allowed = (refl, refl)
as_str-OneLine content_too_large = (refl, refl)
as_str-OneLine internal_server_error = (refl, refl)

status_text-OneLine : (r : Response) → OneLine (status_text r)
unfolding status_text
status_text-OneLine r = by_location r.redirect_location
  where
    by_location :
        (o : Option Text)
        → OneLine (elim o [ some _ ↦ chars "301 Moved Permanently" | none ↦ as_str r.status ])
    by_location none = as_str-OneLine r.status
    by_location (some l) = (refl, refl)

hex-without : (d : ℕ) (s : Text) → d < b'0' → all is_hex s ≡ true → without d s ≡ true
hex-without d [] small h = refl
hex-without d (c ∷ s) small h = ground (arith, hex-without d s)

to_string-OneLine : (n : ℕ) → OneLine (to_string n)
to_string-OneLine n =
    let hex = to_string_radix-hex 10 usize_bound (omega arith, omega arith) n in
    (
      hex-without b'\r' (to_string n) (omega arith) hex,
      hex-without b'\n' (to_string n) (omega arith) hex,
    )

head-AllLines : (r : Response) → IsPlain r → AllLines (status_line r ∷ header_lines r)
head-AllLines r plain = (
  labelled-IsLine b'H' (chars "TTP/1.1 ") (status_text r) (refl, refl) (status_text-OneLine r),
  (
    labelled-IsLine b'C' (chars "ontent-Type: ") r.content_type (refl, refl) plain.content_type,
    (
      labelled-IsLine b'C' (chars "ontent-Length: ") (to_string (length r.body)) (refl, refl)
          (to_string-OneLine (length r.body)),
      AllLines-append (location_lines r.redirect_location) (cookie_lines r.cookies)
          (location_lines-AllLines r.redirect_location plain.location)
          (cookie_lines-AllLines r.cookies plain.cookies),
    ),
  ),
)

-- A client's reading: the lines of the head and the bytes behind the first blank line.
abbrev pub read_message : Bytes → Option (List Text × Bytes)
read_message bytes =
    Option.map (λ end. (lines (take end bytes), drop (end + 4) bytes)) (position separator bytes)

-- A response of plain parts is read back by a client: the status, the headers and the body.
pub read_message-serialize_response :
    (r : Response)
    → IsPlain r
    → read_message (serialize_response r)
      ≡ some (map into_bytes (status_line r ∷ header_lines r), r.body)
unfolding serialize_response into_bytes
read_message-serialize_response r plain =
    let first = into_bytes (status_line r) in
    let rest = map into_bytes (header_lines r) in
    let lined = into_bytes-AllLines (status_line r ∷ header_lines r) (head-AllLines r plain) in
    let framed : into_bytes (response_head r) ++ r.body
        ≡ join_lines first rest ++ (separator ++ r.body) =
      ap (λ x. into_bytes x ++ r.body) (response_head-lines r)
      ∙ ap (λ x. x ++ r.body)
          (into_bytes-append (join_lines (status_line r) (header_lines r)) separator
            ∙ ap (λ x. x ++ into_bytes separator)
                (into_bytes-join_lines (status_line r) (header_lines r)))
      ∙ append_assoc (join_lines first rest) (into_bytes separator) r.body in
    ap read_message framed
    ∙ rw (
      position-join_lines first rest r.body lined,
      take-append (join_lines first rest) (separator ++ r.body),
      drop-add-append (join_lines first rest) 4 (separator ++ r.body),
      lines-join_lines first rest lined,
    )
