-- ===== src/Std/Text.antt =====
-- `char` and `str`: white space, trimming, prefixes, splitting, lines, lower case.
pub mod Lower
pub mod Trim
pub mod Position
pub mod Split
pub mod Lines
pub mod Cut
use Prim.Native.Char.{code}
use Prim.Native.String.{◌∷◌ as cons, [] as nil}
use mathlib.Core.List.{reverse, flat_map}
use mathlib.Core.Option
use localserver.Base.{
  ℕ, ◌+◌, String, ◌≡◌, refl, ◌↔◌, Bool, true, false, not, ◌&&◌, ◌||◌, Option, none, some, List, [],
  ◌∷◌, ◌++◌, map, arith, ltb, leb, ◌==◌, if◌then◌else◌, Bool-cases, ==_iff, is_empty,
}

abbrev pub Bytes : Type 0
Bytes = List ℕ

abbrev pub Text : Type 0
Text = List ℕ

-- The characters of a literal.
abbrev pub chars : String → Text
chars nil = []
chars (cons c s) = code c ∷ chars s

unfoldable pub text_eq : Text → Text → Bool
text_eq [] [] = true
text_eq (c ∷ s) (d ∷ t) = c == d && text_eq s t
text_eq _ _ = false

abbrev within : ℕ → ℕ → ℕ → Bool
within lo hi c = leb lo c && leb c hi

-- `char::is_whitespace`, the property White_Space of Unicode.
unfoldable pub is_whitespace : ℕ → Bool
is_whitespace c =
    within 9 13 c
    || c == 32
    || c == 0x85
    || c == 0xA0
    || c == 0x1680
    || within 0x2000 0x200A c
    || c == 0x2028
    || c == 0x2029
    || c == 0x202F
    || c == 0x205F
    || c == 0x3000

unfoldable pub trim_start_matches : (ℕ → Bool) → Text → Text
trim_start_matches p [] = []
trim_start_matches p (c ∷ s) = if p c then trim_start_matches p s else c ∷ s

-- The end is trimmed where nothing but matches follows.
unfoldable pub trim_end_matches : (ℕ → Bool) → Text → Text
trim_end_matches p [] = []
trim_end_matches p (c ∷ s) =
    let rest = trim_end_matches p s in if p c && is_empty rest then [] else c ∷ rest

unfoldable pub trim : Text → Text
unfolding trim_start_matches trim_end_matches
trim s = trim_end_matches is_whitespace (trim_start_matches is_whitespace s)

-- `starts_with` on a `str` or on a slice of bytes.
unfoldable pub starts_with : List ℕ → List ℕ → Bool
starts_with s [] = true
starts_with [] (d ∷ t) = false
starts_with (c ∷ s) (d ∷ t) = c == d && starts_with s t

unfoldable pub strip_prefix : Text → Text → Option Text
strip_prefix s [] = some s
strip_prefix [] (d ∷ t) = none
strip_prefix (c ∷ s) (d ∷ t) = if c == d then strip_prefix s t else none

-- `s` with the suffix `t` taken off.
unfoldable pub strip_suffix : Text → Text → Option Text
strip_suffix [] t = if is_empty t then some [] else none
strip_suffix (c ∷ s) t =
    let rest = Option.map (λ r. c ∷ r) (strip_suffix s t) in
    if text_eq (c ∷ s) t then some [] else rest

unfoldable pub ends_with : Text → Text → Bool
unfolding text_eq
ends_with [] t = is_empty t
ends_with (c ∷ s) t = text_eq (c ∷ s) t || ends_with s t

unfoldable pub contains : Text → Text → Bool
unfolding starts_with
contains [] t = is_empty t
contains (c ∷ s) t = starts_with (c ∷ s) t || contains s t

-- The first place of `t`, which is not empty, in `s`: `s.windows(t.len()).position(|w| w == t)`.
unfoldable pub position : List ℕ → List ℕ → Option ℕ
unfolding starts_with
position t [] = none
position t (c ∷ s) =
    if starts_with (c ∷ s) t then some 0 else Option.map (λ i. i + 1) (position t s)

unfoldable pub split_once : ℕ → Text → Option (Text × Text)
split_once d [] = none
split_once d (c ∷ s) =
    if c == d then some ([], s) else Option.map (λ p. (c ∷ p.0, p.1)) (split_once d s)

abbrev pub cons_head : ℕ → List Text → List Text
cons_head c [] = (c ∷ []) ∷ []
cons_head c (s ∷ l) = (c ∷ s) ∷ l

-- `split` at each character that matches; the pieces may be empty.
unfoldable pub split : (ℕ → Bool) → Text → List Text
split p [] = [] ∷ []
split p (c ∷ s) = let rest = split p s in if p c then [] ∷ rest else cons_head c rest

unfoldable pub nonempty : List Text → List Text
nonempty [] = []
nonempty (s ∷ l) = if is_empty s then nonempty l else s ∷ nonempty l

unfoldable pub split_whitespace : Text → List Text
unfolding split nonempty
split_whitespace s = nonempty (split is_whitespace s)

strip_cr : Text → Text
strip_cr s = Option.get_or (strip_suffix s (chars "\r")) s

-- Each piece but the last ended with a newline, and loses a carriage return before it.
lines_of : List Text → List Text
lines_of [] = []
lines_of (s ∷ []) = if is_empty s then [] else s ∷ []
lines_of (s ∷ t ∷ l) = strip_cr s ∷ lines_of (t ∷ l)

unfoldable pub lines : Text → List Text
unfolding split lines_of strip_cr strip_suffix text_eq
lines s = lines_of (split (λ c. c == b'\n') s)

-- The lower case of a character outside ASCII, which the tables of Unicode give; the context is
-- an argument because that of `Σ` depends on it.
pub record Unicode : Type 0 where
  pub lower : Text → ℕ → Text → Text

unfoldable pub ascii_lower : ℕ → ℕ
ascii_lower c = if leb b'A' c && leb c b'Z' then c + 32 else c

lower_from : Unicode → Text → Text → Text
lower_from u before [] = []
lower_from u before (c ∷ after) =
    (if ltb c 128 then ascii_lower c ∷ [] else u.lower before c after)
    ++ lower_from u (before ++ c ∷ []) after

unfoldable pub to_lowercase : Unicode → Text → Text
unfolding lower_from ascii_lower
to_lowercase u s = lower_from u [] s

pub text_eq_iff : (s t : Text) → (text_eq s t ≡ true) ↔ (s ≡ t)
unfolding text_eq
text_eq_iff [] [] = ground arith
text_eq_iff [] (d ∷ t) = ground arith
text_eq_iff (c ∷ s) [] = ground arith
text_eq_iff (c ∷ s) (d ∷ t) = ground (arith, text_eq_iff s t)

pub text_eq_self : (s : Text) → text_eq s s ≡ true
text_eq_self s = (text_eq_iff s s).1 refl
