-- ===== src/Std/Utf8.antt =====
-- UTF-8: what `from_utf8`, `from_utf8_lossy` and `into_bytes` do, one byte at a time.
pub mod Lines
use mathlib.Core.Option
use localserver.Base.{
  ℕ, ◌+◌, ◌-◌, ◌*◌, ◌/◌, ◌%◌, ◌≡◌, refl, ap, Bool, true, ◌&&◌, Option, none, some, List, [], ◌∷◌,
  ◌++◌, map, arith, ltb, leb, ◌==◌, if◌then◌else◌, all, length,
}
use localserver.Std.Text.{Bytes, Text}

-- Between two bytes: at a boundary, or with `need` bytes to come, the next of them in a range.
pub data Decoder : Type 0 where
  boundary : Decoder
  inside : (need lo hi acc : ℕ) → Decoder

-- What a byte settles: characters, with `none` for an ill-formed part, and the new state.
decode_lead : ℕ → List (Option ℕ) × Decoder
decode_lead b =
    if ltb b 0x80
    then (some b ∷ [], boundary)
    else if ltb b 0xC2
    then (none ∷ [], boundary)
    else if ltb b 0xE0
    then ([], inside 1 0x80 0xBF (b - 0xC0))
    else if ltb b 0xF0
    then (
      [],
      inside 2 (if b == 0xE0 then 0xA0 else 0x80) (if b == 0xED then 0x9F else 0xBF) (b - 0xE0),
    )
    else if ltb b 0xF5
    then (
      [],
      inside 3 (if b == 0xF0 then 0x90 else 0x80) (if b == 0xF4 then 0x8F else 0xBF) (b - 0xF0),
    )
    else (none ∷ [], boundary)

decode_step : Decoder → ℕ → List (Option ℕ) × Decoder
decode_step boundary b = decode_lead b
decode_step (inside need lo hi acc) b =
    if leb lo b && leb b hi
    then (if need == 1
        then (some (acc * 64 + (b - 0x80)) ∷ [], boundary)
        else ([], inside (need - 1) 0x80 0xBF (acc * 64 + (b - 0x80))))
    else (none ∷ (decode_lead b).0, (decode_lead b).1)

decode_from : Decoder → Bytes → List (Option ℕ)
decode_from boundary [] = []
decode_from (inside _ _ _ _) [] = none ∷ []
decode_from d (b ∷ bs) = (decode_step d b).0 ++ decode_from (decode_step d b).1 bs

-- Each ill-formed part becomes U+FFFD.
unfoldable pub from_utf8_lossy : Bytes → Text
unfolding decode_from decode_step decode_lead
from_utf8_lossy bs = map (λ c. Option.get_or c 0xFFFD) (decode_from boundary bs)

all_some : List (Option ℕ) → Option Text
all_some [] = some []
all_some (none ∷ l) = none
all_some (some c ∷ l) = Option.map (λ s. c ∷ s) (all_some l)

-- `str::from_utf8(bytes).ok()`
unfoldable pub from_utf8 : Bytes → Option Text
unfolding decode_from decode_step decode_lead all_some
from_utf8 bs = all_some (decode_from boundary bs)

unfoldable pub encode_char : ℕ → Bytes
encode_char c =
    if ltb c 0x80
    then c ∷ []
    else if ltb c 0x800
    then (0xC0 + c / 64) ∷ (0x80 + c % 64) ∷ []
    else if ltb c 0x10000
    then (0xE0 + c / 4096) ∷ (0x80 + c / 64 % 64) ∷ (0x80 + c % 64) ∷ []
    else (0xF0 + c / 262144) ∷ (0x80 + c / 4096 % 64) ∷ (0x80 + c / 64 % 64) ∷ (0x80 + c % 64) ∷ []

-- `into_bytes` and `as_bytes`
unfoldable pub into_bytes : Text → Bytes
unfolding encode_char
into_bytes [] = []
into_bytes (c ∷ s) = encode_char c ++ into_bytes s

-- `str::len` counts bytes.
unfoldable pub len : Text → ℕ
unfolding into_bytes
len s = length (into_bytes s)

abbrev pub is_ascii : List ℕ → Bool
is_ascii = all (λ b. ltb b 0x80)

decode_from-ascii : (bs : Bytes) → is_ascii bs ≡ true → decode_from boundary bs ≡ map some bs
unfolding decode_from decode_step decode_lead
decode_from-ascii [] h = refl
decode_from-ascii (b ∷ bs) h = ground (arith, decode_from-ascii bs)

map-get_or-some : (bs : Bytes) → map (λ c. Option.get_or c 0xFFFD) (map some bs) ≡ bs
map-get_or-some [] = refl
map-get_or-some (b ∷ bs) = ap (◌∷◌ b) (map-get_or-some bs)

all_some-map : (bs : Bytes) → all_some (map some bs) ≡ some bs
unfolding all_some
all_some-map [] = refl
all_some-map (b ∷ bs) = rw (all_some-map bs)

pub from_utf8_lossy-ascii : (bs : Bytes) → is_ascii bs ≡ true → from_utf8_lossy bs ≡ bs
unfolding from_utf8_lossy
from_utf8_lossy-ascii bs h = rw (decode_from-ascii bs h) (map-get_or-some bs)

pub from_utf8-ascii : (bs : Bytes) → is_ascii bs ≡ true → from_utf8 bs ≡ some bs
unfolding from_utf8
from_utf8-ascii bs h = rw (decode_from-ascii bs h) (all_some-map bs)

pub into_bytes-ascii : (s : Text) → is_ascii s ≡ true → into_bytes s ≡ s
unfolding into_bytes
into_bytes-ascii [] h = refl
into_bytes-ascii (c ∷ s) h = ground (arith, into_bytes-ascii s)
