-- ===== src/Request/Message/Sound.antt =====
-- What `Request::parse` promises on any bytes: it ends, and its body comes from behind the first
-- blank line.
use localserver.Base.{
  ℕ, ◌+◌, ◌-◌, ◌≤◌, ◌≡◌, ◌≢◌, refl, ap, true, false, Option, none, some, List, [], ◌∷◌, arith,
  length, take, drop, length-drop, done, out_of_fuel, question, ◌>>=◌, >>=-eq-done,
  >>=-eq-out_of_fuel, inl, inr, Bool-cases,
}
use localserver.Std.Text.{Text, Bytes, Unicode, position, lines}
use localserver.Std.Utf8.{from_utf8_lossy}
use localserver.Request.Chunked.{decode_chunked}
use localserver.Request.Chunked.Total.{decode_chunked-finishes, length-decode_chunked}
use localserver.Request.Message.{
  Dict, Method, Request, separator, parse, parse_text, parse_request_line, parse_headers, finish,
  is_chunked,
}

question-finishes {ℓ} : {A : Type ℓ} (o : Option A) → question o ≢ out_of_fuel
question-finishes none e = cc
question-finishes (some a) e = cc

finish-finishes :
    (u : Unicode) (raw : Bytes) (hs : Dict) (l : Method × Text × Text)
    → finish u raw hs l ≢ out_of_fuel
unfolding finish
finish-finishes u raw hs l e = ground (arith, decode_chunked-finishes raw)

parse_text-finishes : (u : Unicode) (raw : Bytes) (l : List Text) → parse_text u raw l ≢ out_of_fuel
unfolding parse_text
parse_text-finishes u raw [] e = cc
parse_text-finishes u raw (s ∷ l) e =
    elim (>>=-eq-out_of_fuel (question (parse_request_line s))
      (λ x. finish u raw (parse_headers u [] l) x) e) [
        | inl stuck ↦ question-finishes (parse_request_line s) stuck
        | inr (line, found, later) ↦ finish-finishes u raw (parse_headers u [] l) line later
      ]

-- Every buffer is parsed, refused or makes the parser panic: the parser comes to an end.
pub parse-finishes : (u : Unicode) (buffer : Bytes) → parse u buffer ≢ out_of_fuel
unfolding parse
parse-finishes u buffer e =
    elim (>>=-eq-out_of_fuel (question (position separator buffer))
      (λ n. parse_text u (drop (n + 4) buffer) (lines (from_utf8_lossy (take n buffer)))) e) [
        | inl stuck ↦ question-finishes (position separator buffer) stuck
        | inr (n, found, later) ↦ parse_text-finishes u (drop (n + 4) buffer) _ later
      ]

-- What is known of a request that was read off `buffer`.
pub record IsReadFrom (u : Unicode) (buffer : Bytes) (r : Request) : Type 0 where
  pub head_end : ℕ
  pub first_blank : position separator buffer ≡ some head_end
  pub plain_body : is_chunked u r.headers ≡ false → r.body ≡ drop (head_end + 4) buffer
  pub chunked_body :
      is_chunked u r.headers ≡ true → decode_chunked (drop (head_end + 4) buffer) ≡ done r.body
  pub body_size : length r.body ≤ length buffer - (head_end + 4)

module _ (u : Unicode) (buffer : Bytes) (r : Request) where
  finish-read :
      (hs : Dict) (l : Method × Text × Text) (raw : Bytes)
      → finish u raw hs l ≡ done r
      → (is_chunked u r.headers ≡ false → r.body ≡ raw)
        × (is_chunked u r.headers ≡ true → decode_chunked raw ≡ done r.body)
        × (length r.body ≤ length raw)
  unfolding finish
  finish-read hs l raw e = elim (Bool-cases (is_chunked u hs)) [
    | inl chunked ↦
        let (body, decoded, same) = >>=-eq-done (decode_chunked raw) _ (rw chunked at e) in
        let headers_same : r.headers ≡ hs = cc in
        let body_same : r.body ≡ body = cc in
        (λ plain. cc, λ _. cc, rw body_same (length-decode_chunked raw decoded))
    | inr plain ↦
        let same = rw plain at e in
        let headers_same : r.headers ≡ hs = cc in
        let body_same : r.body ≡ raw = cc in
        (λ _. body_same, λ chunked. cc, omega (arith, ap length body_same))
  ]

  parse_text-read :
      (raw : Bytes) (l : List Text)
      → parse_text u raw l ≡ done r
      → (is_chunked u r.headers ≡ false → r.body ≡ raw)
        × (is_chunked u r.headers ≡ true → decode_chunked raw ≡ done r.body)
        × (length r.body ≤ length raw)
  unfolding parse_text
  parse_text-read raw [] e = cc
  parse_text-read raw (s ∷ l) e =
      let (line, found, later) =
        >>=-eq-done (question (parse_request_line s)) (λ x. finish u raw (parse_headers u [] l) x)
          e in
      finish-read (parse_headers u [] l) line raw later

  -- A request is read only off a buffer with a blank line. Its body is what stands behind the
  -- first one, as it is or decoded, and is no longer than that.
  pub parse-IsReadFrom : parse u buffer ≡ done r → IsReadFrom u buffer r
  unfolding parse
  parse-IsReadFrom e = read (position separator buffer) refl e
    where
      read :
          (o : Option ℕ)
          → position separator buffer ≡ o
          → (question o >>= λ n.
              parse_text u (drop (n + 4) buffer) (lines (from_utf8_lossy (take n buffer))))
            ≡ done r
          → IsReadFrom u buffer r
      read none p k = cc
      read (some n) p k =
          let (plain, chunked, size) = parse_text-read (drop (n + 4) buffer) _ k in
          record {
            head_end = n;
            first_blank = p;
            plain_body = plain;
            chunked_body = chunked;
            body_size = omega (arith, length-drop (n + 4) buffer);
          }
