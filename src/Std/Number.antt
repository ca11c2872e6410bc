-- ===== src/Std/Number.antt =====
-- Numbers as text: `from_str_radix`, `parse` and the formats `{}`, `{:x}` and `{:016x}`.
use mathlib.Core.Option
use native.Mathlib.Nat.{div-add-mod', mod-lt, div-lt_self}
use localserver.Base.{
  ℕ, zero, suc, ◌+◌, ◌-◌, ◌*◌, ◌/◌, ◌%◌, ◌≤◌, ◌<◌, ◌≡◌, refl, sym, ap, ◌∙◌, Bool, true, false, ◌&&◌,
  Option, none, some, [], ◌∷◌, ◌++◌, arith, ltb, leb, ◌==◌, if◌then◌else◌, is_empty, all,
  all-append, ◌||◌, ltb→lt, inl, inr, Bool-cases,
}
use localserver.Std.Text.{Text}

-- The value of a digit, in either case.
to_digit : ℕ → Option ℕ
to_digit c =
    if leb b'0' c && leb c b'9'
    then some (c - b'0')
    else if leb b'a' c && leb c b'z'
    then some (c - b'a' + 10)
    else if leb b'A' c && leb c b'Z'
    then some (c - b'A' + 10)
    else none

-- One more digit, below the bound of the machine's type.
add_digit : ℕ → ℕ → ℕ → Option ℕ → Option ℕ
add_digit radix bound acc none = none
add_digit radix bound acc (some d) =
    if ltb d radix && ltb (acc * radix + d) bound then some (acc * radix + d) else none

parse_digits : ℕ → ℕ → Option ℕ → Text → Option ℕ
parse_digits radix bound none s = none
parse_digits radix bound (some acc) [] = some acc
parse_digits radix bound (some acc) (c ∷ s) =
    parse_digits radix bound (add_digit radix bound acc (to_digit c)) s

some_digits : ℕ → ℕ → Text → Option ℕ
some_digits radix bound s = if is_empty s then none else parse_digits radix bound (some 0) s

-- `T::from_str_radix(s, radix).ok()` for an unsigned type of values below `bound`: one `+` may
-- lead, there is a digit, and the value is in range.
unfoldable pub from_str_radix : ℕ → ℕ → Text → Option ℕ
unfolding to_digit add_digit parse_digits some_digits
from_str_radix radix bound [] = none
from_str_radix radix bound (c ∷ s) =
    if c == b'+' then some_digits radix bound s else some_digits radix bound (c ∷ s)

abbrev pub u16_bound : ℕ
u16_bound = 65536

abbrev pub usize_bound : ℕ
usize_bound = 18446744073709551616

unfoldable pub digit_char : ℕ → ℕ
digit_char d = if ltb d 10 then b'0' + d else b'a' + (d - 10)

digits_of : ℕ → ℕ → ℕ → Text
digits_of zero radix n = []
digits_of (suc fuel) radix n =
    let rest = digits_of fuel radix (n / radix) ++ digit_char (n % radix) ∷ [] in
    if ltb n radix then digit_char n ∷ [] else rest

-- The digits of `n`, by enough fuel: a number has no more digits than its value, and one.
unfoldable pub to_string_radix : ℕ → ℕ → Text
unfolding digits_of digit_char
to_string_radix radix n = digits_of (suc n) radix n

abbrev pub to_string : ℕ → Text
to_string = to_string_radix 10

abbrev pub IsRadix : ℕ → Type 0
IsRadix radix = (2 ≤ radix) × (radix ≤ 16)

abbrev pub is_hex : ℕ → Bool
is_hex c = (leb b'0' c && leb c b'9') || (leb b'a' c && leb c b'f')

is_empty-snoc : (s : Text) (c : ℕ) → is_empty (s ++ c ∷ []) ≡ false
is_empty-snoc [] c = refl
is_empty-snoc (d ∷ s) c = refl

from_str_radix-hex :
    (radix bound : ℕ) (s : Text)
    → all is_hex s ≡ true
    → is_empty s ≡ false
    → from_str_radix radix bound s ≡ some_digits radix bound s
unfolding from_str_radix
from_str_radix-hex radix bound [] h e = cc
from_str_radix-hex radix bound (c ∷ s) h e =
    let other : (c == b'+') ≡ false = ground arith in rw other

module _ (radix bound : ℕ) (r : IsRadix radix) where
  to_digit-digit_char : (d : ℕ) → d < radix → to_digit (digit_char d) ≡ some d
  unfolding to_digit digit_char
  to_digit-digit_char d h = ground (arith, r.0, r.1)

  parse_digits-nil : (m : Option ℕ) → parse_digits radix bound m [] ≡ m
  unfolding parse_digits
  parse_digits-nil none = refl
  parse_digits-nil (some m) = refl

  parse_digits-append :
      (a : Option ℕ) (s : Text) (d : ℕ)
      → d < radix
      → parse_digits radix bound a (s ++ digit_char d ∷ [])
        ≡ Option.bind (parse_digits radix bound a s) (λ n. add_digit radix bound n (some d))
  unfolding parse_digits Option.bind
  parse_digits-append none s d h = refl
  parse_digits-append (some a) [] d h =
      ap (λ o. parse_digits radix bound (add_digit radix bound a o) []) (to_digit-digit_char d h)
      ∙ parse_digits-nil (add_digit radix bound a (some d))
  parse_digits-append (some a) (c ∷ s) d h =
      parse_digits-append (add_digit radix bound a (to_digit c)) s d h

  div-lt : (n : ℕ) → radix ≤ n → n / radix < n
  div-lt n h = div-lt_self {n = n} {k = radix} (omega (arith, r.0)) r.0

  add_digit-small : (n : ℕ) → n < radix → n < bound → add_digit radix bound 0 (some n) ≡ some n
  unfolding add_digit
  add_digit-small n h b = ground arith

  add_digit-last :
      (n : ℕ) → n < bound → add_digit radix bound (n / radix) (some (n % radix)) ≡ some n
  unfolding add_digit
  add_digit-last n b =
      ground (arith, r.0, mod-lt n {m = radix} (omega (arith, r.0)), div-add-mod' n radix)

  parse_digits-digits_of :
      (fuel n : ℕ)
      → n < fuel
      → n < bound
      → parse_digits radix bound (some 0) (digits_of fuel radix n) ≡ some n
  unfolding digits_of Option.bind
  parse_digits-digits_of zero n h b = elim h [ ]
  parse_digits-digits_of (suc fuel) n h b = elim (Bool-cases (ltb n radix)) [
    | inl small ↦ rw small (
        parse_digits-append (some 0) [] n (ltb→lt n radix small)
        ∙ (unfold parse_digits in add_digit-small n (ltb→lt n radix small) b))
    | inr large ↦
        let at_least : radix ≤ n = ground arith in
        let ih =
          parse_digits-digits_of fuel (n / radix) (omega (arith, div-lt n at_least))
            (omega (arith, div-lt n at_least)) in
        rw large (
          parse_digits-append (some 0) (digits_of fuel radix (n / radix)) (n % radix)
            (mod-lt n (omega (arith, r.0)))
          ∙ rw ih (add_digit-last n b))
  ]

  leading_zero :
      (s : Text)
      → is_empty s ≡ false
      → 0 < bound
      → some_digits radix bound (b'0' ∷ s) ≡ some_digits radix bound s
  unfolding some_digits parse_digits to_digit add_digit
  leading_zero [] e b = cc
  leading_zero (c ∷ s) e b =
      ap (λ o. parse_digits radix bound o (c ∷ s)) (add_digit-small 0 (omega (arith, r.0)) b)

  digit_char-hex : (d : ℕ) → d < radix → is_hex (digit_char d) ≡ true
  unfolding digit_char
  digit_char-hex d h = ground (arith, r.1)

  digits_of-hex : (fuel n : ℕ) → all is_hex (digits_of fuel radix n) ≡ true
  unfolding digits_of
  digits_of-hex zero n = refl
  digits_of-hex (suc fuel) n = elim (Bool-cases (ltb n radix)) [
    | inl small ↦ rw small (ground (arith, digit_char-hex n (ltb→lt n radix small)))
    | inr large ↦ rw large (
        all-append is_hex (digits_of fuel radix (n / radix)) (digit_char (n % radix) ∷ [])
          (digits_of-hex fuel (n / radix))
          (ground (arith, digit_char-hex (n % radix) (mod-lt n (omega (arith, r.0))))))
  ]

  pub to_string_radix-hex : (n : ℕ) → all is_hex (to_string_radix radix n) ≡ true
  unfolding to_string_radix
  to_string_radix-hex n = digits_of-hex (suc n) n

  pub to_string_radix-nonempty : (n : ℕ) → is_empty (to_string_radix radix n) ≡ false
  unfolding to_string_radix
  to_string_radix-nonempty n = elim (Bool-cases (ltb n radix)) [
    | inl small ↦ rw small
    | inr large ↦ rw large (is_empty-snoc (digits_of n radix (n / radix)) (digit_char (n % radix)))
  ]

  some_digits-to_string :
      (n : ℕ) → n < bound → some_digits radix bound (to_string_radix radix n) ≡ some n
  unfolding some_digits
  some_digits-to_string n b =
      rw (to_string_radix-nonempty n)
        (unfold to_string_radix in parse_digits-digits_of (suc n) n (omega arith) b)

  -- A number below the bound is read back from its digits.
  pub from_str_radix-to_string :
      (n : ℕ) → n < bound → from_str_radix radix bound (to_string_radix radix n) ≡ some n
  from_str_radix-to_string n b =
      from_str_radix-hex radix bound (to_string_radix radix n) (to_string_radix-hex n)
        (to_string_radix-nonempty n)
      ∙ some_digits-to_string n b

  -- A zero in front of digits changes nothing.
  pub from_str_radix-zero :
      (s : Text)
      → all is_hex s ≡ true
      → is_empty s ≡ false
      → 0 < bound
      → from_str_radix radix bound (b'0' ∷ s) ≡ from_str_radix radix bound s
  from_str_radix-zero s h e b =
      from_str_radix-hex radix bound (b'0' ∷ s) h refl
      ∙ leading_zero s e b
      ∙ sym (from_str_radix-hex radix bound s h e)
