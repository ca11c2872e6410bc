-- ===== src/Session/Identifier.antt =====
-- src/utils/session.rs: `generate_id`.
use localserver.Base.{
  ℕ, zero, suc, ◌+◌, ◌*◌, ◌%◌, ◌<◌, ◌≡◌, ◌^◌, ◌-◌, ◌∷◌, arith, length, ◌∙◌, ap, sym, refl, some,
  true, false, all, is_empty,
}
use localserver.Std.Text.{Text}
use localserver.Std.Number.{
  IsRadix, is_hex, usize_bound, to_string_radix, from_str_radix, to_string_radix-hex,
  to_string_radix-nonempty, from_str_radix-to_string, from_str_radix-zero,
}

-- The bits of the id: `nanos` is `subsec_nanos` of the clock, `pid` the process's number.
unfoldable pub mix : ℕ → ℕ → ℕ
mix nanos pid = (nanos * 0x9e3779b97f4a7c15 % 2 ^ 64 + pid) % 2 ^ 64 * 0x6c62272e07bb0142 % 2 ^ 64

-- Zeros in front, up to `width` characters.
pad : ℕ → Text → Text
pad zero s = s
pad (suc n) s = b'0' ∷ pad n s

unfoldable pub generate_id : ℕ → ℕ → Text
unfolding mix pad
generate_id nanos pid =
    let digits = to_string_radix 16 (mix nanos pid) in pad (16 - length digits) digits

mix-injective :
    (pid a b : ℕ) → pid < 2 ^ 32 → a < 1000000000 → b < 1000000000 → mix a pid ≡ mix b pid → a ≡ b
unfolding mix
mix-injective pid a b p ha hb e = omega arith

abbrev hex_radix : IsRadix 16
hex_radix = (omega arith, omega arith)

pad-plain :
    (n : ℕ) (s : Text)
    → all is_hex s ≡ true
    → is_empty s ≡ false
    → (all is_hex (pad n s) ≡ true)
      × (is_empty (pad n s) ≡ false)
      × (from_str_radix 16 usize_bound (pad n s) ≡ from_str_radix 16 usize_bound s)
unfolding pad
pad-plain zero s h e = (h, e, refl)
pad-plain (suc n) s h e =
    let (hex, full, same) = pad-plain n s h e in
    (
      hex,
      refl,
      from_str_radix-zero 16 usize_bound hex_radix (pad n s) hex full (omega arith) ∙ same,
    )

-- The id is the bits in hexadecimal, and is read back as them.
from_str_radix-generate_id :
    (nanos pid : ℕ) → from_str_radix 16 usize_bound (generate_id nanos pid) ≡ some (mix nanos pid)
unfolding generate_id
from_str_radix-generate_id nanos pid =
    let bits : ℕ = mix nanos pid in
    let in_range : bits < usize_bound = unfold mix in omega arith in
    (pad-plain (16 - length (to_string_radix 16 bits)) (to_string_radix 16 bits)
      (to_string_radix-hex 16 usize_bound hex_radix bits)
      (to_string_radix-nonempty 16 usize_bound hex_radix bits)).2
    ∙ from_str_radix-to_string 16 usize_bound hex_radix bits in_range

-- An id is made of hexadecimal digits.
pub generate_id-hex :
    (nanos pid : ℕ)
    → (all is_hex (generate_id nanos pid) ≡ true) × (is_empty (generate_id nanos pid) ≡ false)
unfolding generate_id
generate_id-hex nanos pid =
    let digits = to_string_radix 16 (mix nanos pid) in
    let (hex, full, same) =
      pad-plain (16 - length digits) digits
        (to_string_radix-hex 16 usize_bound hex_radix (mix nanos pid))
        (to_string_radix-nonempty 16 usize_bound hex_radix (mix nanos pid)) in
    (hex, full)

-- In one process, ids that were made at different nanoseconds of a second differ.
pub generate_id-injective :
    (pid a b : ℕ)
    → pid < 2 ^ 32
    → a < 1000000000
    → b < 1000000000
    → generate_id a pid ≡ generate_id b pid
    → a ≡ b
generate_id-injective pid a b p ha hb e =
    let read : some (mix a pid) ≡ some (mix b pid) =
      sym (from_str_radix-generate_id a pid)
      ∙ ap (from_str_radix 16 usize_bound) e
      ∙ from_str_radix-generate_id b pid in
    mix-injective pid a b p ha hb (cc read)
