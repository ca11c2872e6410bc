-- ===== src/Config/Parser/Ends.antt =====
-- How the parts of the configuration parser end: where they stand in the tokens.
pub mod Location
pub mod Server
use localserver.Base.{
  ℕ, zero, suc, ◌+◌, ◌-◌, ◌≤◌, ◌<◌, ◌≡◌, refl, Bool, true, false, Option, none, some, Option-cases,
  ◌⊎◌, ap, inl, inr, List, [], ◌∷◌, arith, if◌then◌else◌, Bool-cases, length, get_elem?,
}
use localserver.Std.Text.{Text}
use localserver.Config.Tokenizer.{TokenKind, word, lbrace, rbrace, semicolon, Token, kind_eq}
use localserver.Config.Parser.State.{
  Message, unexpected_end, expected_value, expected_kind_at_end, expected_kind, ParseError, Parser,
  Reply, ok, err, out_of_fuel, P, bind_reply, ◌>>=◌, ◌>>◌, pure, fail, peek, advance, expect_word,
  word_of, expect, kind_of, or_fail,
}

-- A reply that is not for want of fuel, at `lo` or behind it.
abbrev pub IsFine : {A : Type 0} → List Token → ℕ → Reply A → Type 0
IsFine ts lo (ok a p) = (p.tokens ≡ ts) × (lo ≤ p.pos)
IsFine ts lo (err e) = Unit
IsFine ts lo out_of_fuel = ⊥

-- A part of the parser that comes to an end wherever it starts from `lo` on.
pub record EndsFrom {A : Type 0} (ts : List Token) (lo : ℕ) (m : P A) : Type 0 where
  pub ends : (p : Parser) → p.tokens ≡ ts → lo ≤ p.pos → IsFine ts lo (m p)

module _ {A : Type 0} (ts : List Token) where
  pub IsFine-weaken : (lo hi : ℕ) (r : Reply A) → lo ≤ hi → IsFine ts hi r → IsFine ts lo r
  IsFine-weaken lo hi (ok a p) h (e, k) = (e, omega arith)
  IsFine-weaken lo hi (err x) h k = tt
  IsFine-weaken lo hi out_of_fuel h k = k

  pub pure-EndsFrom : (lo : ℕ) (a : A) → EndsFrom ts lo (pure a)
  pure-EndsFrom lo a = record { ends = λ p e h. (e, h) }

  pub fail-EndsFrom : (lo : ℕ) (m : Message) → EndsFrom {A = A} ts lo (fail m)
  fail-EndsFrom lo m = record { ends = λ p e h. tt }

  pub or_fail-EndsFrom : (lo : ℕ) (o : Option A) (m : Message) → EndsFrom ts lo (or_fail o m)
  or_fail-EndsFrom lo none m = fail-EndsFrom lo m
  or_fail-EndsFrom lo (some a) m = pure-EndsFrom lo a

  pub if-EndsFrom :
      (lo : ℕ) (b : Bool) (m n : P A)
      → EndsFrom ts lo m
      → EndsFrom ts lo n
      → EndsFrom ts lo (if b then m else n)
  if-EndsFrom lo true m n h k = h
  if-EndsFrom lo false m n h k = k

module _ {A B : Type 0} (ts : List Token) (lo : ℕ) where
  bind_reply-IsFine :
      (r : Reply A) (f : A → P B)
      → IsFine ts lo r
      → ((a : A) → EndsFrom ts lo (f a))
      → IsFine ts lo (bind_reply r f)
  bind_reply-IsFine (ok a p) f (e, h) k = (k a).ends p e h
  bind_reply-IsFine (err x) f h k = tt
  bind_reply-IsFine out_of_fuel f h k = h

  pub bind-EndsFrom :
      (m : P A) (f : A → P B)
      → EndsFrom ts lo m
      → ((a : A) → EndsFrom ts lo (f a))
      → EndsFrom ts lo (m >>= f)
  bind-EndsFrom m f h k = record { ends = λ p e l. bind_reply-IsFine (m p) f (h.ends p e l) k }

-- A token is there at the positions below the length.
get_elem?-lt : {A : Type 0} (l : List A) (i : ℕ) {a : A} → get_elem? l i ≡ some a → i < length l
get_elem?-lt [] i e = cc
get_elem?-lt (x ∷ l) zero e = omega arith
get_elem?-lt (x ∷ l) (suc i) e = omega (arith, get_elem?-lt l i e)

peek-lt : (p : Parser) {t : Token} → peek p ≡ some t → p.pos < length p.tokens
unfolding peek
peek-lt p e = get_elem?-lt p.tokens p.pos e

-- A word that is read is a token that is passed.
expect_word-cases :
    (p : Parser)
    → ((w : Text) × (expect_word p ≡ ok w (advance p)) × (p.pos < length p.tokens))
      ⊎ ((x : ParseError) × (expect_word p ≡ err x))
unfolding expect_word
expect_word-cases p = elim (Option-cases (peek p)) [
  | inl gone ↦ inr (record { message = unexpected_end; line = 0 }, rw (expect_word, gone, word_of))
  | inr (t, here) ↦ by_kind t here t.kind refl
]
  where
    by_kind :
        (t : Token)
        → peek p ≡ some t
        → (k : TokenKind) → t.kind ≡ k
        → ((w : Text) × (expect_word p ≡ ok w (advance p)) × (p.pos < length p.tokens))
          ⊎ ((x : ParseError) × (expect_word p ≡ err x))
    by_kind t here (word w) q = inl (w, rw (expect_word, here, word_of, q), peek-lt p here)
    by_kind t here lbrace q = inr (
      record { message = expected_value lbrace; line = t.line },
      rw (expect_word, here, word_of, q),
    )
    by_kind t here rbrace q = inr (
      record { message = expected_value rbrace; line = t.line },
      rw (expect_word, here, word_of, q),
    )
    by_kind t here semicolon q = inr (
      record { message = expected_value semicolon; line = t.line },
      rw (expect_word, here, word_of, q),
    )

expect-cases :
    (k : TokenKind) (p : Parser)
    → ((expect k p ≡ ok tt (advance p)) × (p.pos < length p.tokens))
      ⊎ ((x : ParseError) × (expect k p ≡ err x))
unfolding expect
expect-cases k p = elim (Option-cases (peek p)) [
  | inl gone ↦
      inr (record { message = expected_kind_at_end k; line = 0 }, rw (expect, gone, kind_of))
  | inr (t, here) ↦ elim (Bool-cases (kind_eq t.kind k)) [
    | inl same ↦ inl (rw (expect, here, kind_of, same), peek-lt p here)
    | inr other ↦ inr (
      record { message = expected_kind k t.kind; line = t.line },
      rw (expect, here, kind_of, other),
    )
  ]
]

module _ {B : Type 0} (ts : List Token) (lo : ℕ) where
  pub expect_word-IsFine :
      (f : Text → P B) (p : Parser)
      → p.tokens ≡ ts
      → lo ≤ p.pos
      → ((w : Text) → p.pos < length ts → EndsFrom ts (p.pos + 1) (f w))
      → IsFine ts lo ((expect_word >>= f) p)
  expect_word-IsFine f p e h k = elim (expect_word-cases p) [
    | inl (w, read, small) ↦ rw read (
        IsFine-weaken ts lo (p.pos + 1) (f w (advance p)) (omega arith)
          ((k w (omega (arith, ap length e))).ends (advance p) e (omega arith)))
    | inr (x, failed) ↦ rw failed tt
  ]

module _ (ts : List Token) (lo : ℕ) where
  pub expect_word-EndsFrom : EndsFrom ts lo expect_word
  expect_word-EndsFrom = record {
    ends = λ p e h. elim (expect_word-cases p) [
      | inl (w, read, small) ↦ rw read (e, omega arith)
      | inr (x, failed) ↦ rw failed tt
    ];
  }

  pub expect-EndsFrom : (k : TokenKind) → EndsFrom ts lo (expect k)
  expect-EndsFrom k = record {
    ends = λ p e h. elim (expect-cases k p) [
      | inl (read, small) ↦ rw read (e, omega arith)
      | inr (x, failed) ↦ rw failed tt
    ];
  }
