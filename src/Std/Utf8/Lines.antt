-- ===== src/Std/Utf8/Lines.antt =====
-- Texts put together from lines, as bytes.
use localserver.Base.{
  ℕ, ◌<◌, ◌≡◌, refl, sym, ap, ◌∙◌, true, false, List, [], ◌∷◌, ◌++◌, map, append_assoc, arith, ◌==◌,
  all-append, is_empty,
}
use localserver.Std.Text.{Text}
use localserver.Std.Text.Position.{without}
use localserver.Std.Text.Lines.{IsLine, AllLines, join_lines}
use localserver.Std.Utf8.{into_bytes, encode_char}
use localserver.Response.{}

pub into_bytes-append : (s t : Text) → into_bytes (s ++ t) ≡ into_bytes s ++ into_bytes t
unfolding into_bytes
into_bytes-append [] t = refl
into_bytes-append (c ∷ s) t =
    rw (into_bytes-append s t) (sym (append_assoc (encode_char c) (into_bytes s) (into_bytes t)))

encode_char-without : (d c : ℕ) → d < 128 → (c == d) ≡ false → without d (encode_char c) ≡ true
unfolding encode_char
encode_char-without d c small other = ground arith

-- A character of ASCII that does not stand in a text does not stand in its bytes.
into_bytes-without :
    (d : ℕ) (s : Text) → d < 128 → without d s ≡ true → without d (into_bytes s) ≡ true
unfolding into_bytes
into_bytes-without d [] small h = refl
into_bytes-without d (c ∷ s) small h =
    all-append _ (encode_char c) (into_bytes s) (encode_char-without d c small (ground (arith, h)))
      (into_bytes-without d s small (ground (arith, h)))

is_empty-into_bytes : (s : Text) → is_empty s ≡ false → is_empty (into_bytes s) ≡ false
unfolding into_bytes encode_char
is_empty-into_bytes [] h = cc
is_empty-into_bytes (c ∷ s) h = ground arith

pub into_bytes-join_lines :
    (s : Text) (l : List Text)
    → into_bytes (join_lines s l) ≡ join_lines (into_bytes s) (map into_bytes l)
unfolding join_lines into_bytes
into_bytes-join_lines s [] = into_bytes-append s []
into_bytes-join_lines s (t ∷ l) =
    into_bytes-append s (b'\r' ∷ b'\n' ∷ join_lines t l)
    ∙ ap (into_bytes s ++◌) (ap (λ x. b'\r' ∷ b'\n' ∷ x) (into_bytes-join_lines t l))

into_bytes-IsLine : (s : Text) → IsLine s → IsLine (into_bytes s)
into_bytes-IsLine s k = record {
  some_char = is_empty-into_bytes s k.some_char;
  no_cr = into_bytes-without b'\r' s (omega arith) k.no_cr;
  no_lf = into_bytes-without b'\n' s (omega arith) k.no_lf;
}

pub into_bytes-AllLines : (l : List Text) → AllLines l → AllLines (map into_bytes l)
into_bytes-AllLines [] k = tt
into_bytes-AllLines (s ∷ l) (k, ks) = (into_bytes-IsLine s k, into_bytes-AllLines l ks)
