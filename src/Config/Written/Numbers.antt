-- ===== src/Config/Written/Numbers.antt =====
-- Numbers as a configuration writes them.
use localserver.Base.{ℕ, ◌<◌, ◌≡◌, refl, true, false, none, some, [], ◌∷◌, all, arith}
use localserver.Std.Text.{Text, chars, text_eq, is_whitespace, strip_suffix, Unicode, ascii_lower}
use localserver.Std.Text.Lower.{is_lowered, to_lowercase-lowered}
use localserver.Std.Text.Trim.{none_match, trim-none}
use localserver.Std.Number.{
  IsRadix, is_hex, to_string, to_string_radix-hex, from_str_radix-to_string, usize_bound, u16_bound,
}
use localserver.Config.Size.{parse_usize, parse_body_size}
use localserver.Config.Parser.Server.{parse_u16}

abbrev decimal : IsRadix 10
decimal = (omega arith, omega arith)

hex-lowered : (s : Text) → all is_hex s ≡ true → all is_lowered s ≡ true
unfolding ascii_lower
hex-lowered [] h = refl
hex-lowered (c ∷ s) h = ground (arith, hex-lowered s)

strip_suffix-hex :
    (s : Text) (d : ℕ) (t : Text)
    → all is_hex s ≡ true
    → is_hex d ≡ false
    → strip_suffix s (d ∷ t) ≡ none
unfolding strip_suffix text_eq
strip_suffix-hex [] d t h k = refl
strip_suffix-hex (c ∷ s) d t h k = ground (arith, strip_suffix-hex s d t)

pub hex-visible : (s : Text) → all is_hex s ≡ true → none_match is_whitespace s ≡ true
unfolding is_whitespace
hex-visible [] h = refl
hex-visible (c ∷ s) h = ground (arith, hex-visible s)

pub parse_u16-to_string : (n : ℕ) → n < u16_bound → parse_u16 (to_string n) ≡ some n
parse_u16-to_string n small = from_str_radix-to_string 10 u16_bound decimal n small

-- A size without a unit.
pub parse_body_size-to_string :
    (u : Unicode) (n : ℕ) → n < usize_bound → parse_body_size u (to_string n) ≡ some n
unfolding parse_body_size parse_usize
parse_body_size-to_string u n small =
    let hex : all is_hex (to_string n) ≡ true = to_string_radix-hex 10 usize_bound decimal n in
    let lowered = to_lowercase-lowered u (to_string n) (hex-lowered (to_string n) hex) in
    rw
      (
        parse_body_size,
        lowered,
        strip_suffix-hex (to_string n) b'm' (chars "b") hex refl,
        lowered,
        strip_suffix-hex (to_string n) b'k' (chars "b") hex refl,
        lowered,
        trim-none (to_string n) (hex-visible (to_string n) hex),
      )
      (from_str_radix-to_string 10 usize_bound decimal n small)
