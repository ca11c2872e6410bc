-- ===== src/Config/Written/Reads.antt =====
-- What a part of the configuration parser makes of the kinds of the tokens that are left.
use native.Mathlib.Numerals.{unary_clauses}
use localserver.Base.{ℕ, zero, suc, ◌≡◌, refl, true, Option, none, some, List, [], ◌∷◌, get_elem?}
use localserver.Std.Text.{Text, text_eq_iff}
use localserver.Config.Tokenizer.{TokenKind, word, lbrace, rbrace, semicolon, Token, kind_eq}
use localserver.Config.Parser.State.{
  Message, Parser, Reply, ok, err, out_of_fuel, P, bind_reply, ◌>>=◌, pure, peek, advance,
  expect_word, word_of, expect, kind_of, or_fail,
}

abbrev pub kinds_from : List Token → ℕ → List TokenKind
kinds_from [] i = []
kinds_from (t ∷ ts) zero = t.kind ∷ kinds_from ts zero
kinds_from (t ∷ ts) (suc i) = kinds_from ts i

abbrev pub left : Parser → List TokenKind
left p = kinds_from p.tokens p.pos

-- A reply with this value and these kinds left, if it is not for want of fuel.
abbrev pub IsRead : {A : Type 0} → List TokenKind → A → Reply A → Type 0
IsRead ls a (ok b p) = (b ≡ a) × (left p ≡ ls)
IsRead ls a (err e) = ⊥
IsRead ls a out_of_fuel = Unit

-- A part of the parser that reads the first kinds to the value and leaves the others.
pub record Reads {A : Type 0} (m : P A) (ks ls : List TokenKind) (a : A) : Type 0 where
  pub reads : (p : Parser) → left p ≡ ks → IsRead ls a (m p)

module _ {A : Type 0} where
  pub pure-Reads : (a : A) (ks : List TokenKind) → Reads (pure a) ks ks a
  pure-Reads a ks = record { reads = λ p e. (refl, e) }

  pub or_fail-Reads :
      {o : Option A} (m : Message) (ks : List TokenKind) {a : A}
      → o ≡ some a
      → Reads (or_fail o m) ks ks a
  or_fail-Reads m ks e = rw e (record { reads = λ p h. (refl, h) })

module _ {A B : Type 0} where
  bind_reply-IsRead :
      (r : Reply A) (f : A → P B) {ks ls : List TokenKind} {a : A} {b : B}
      → IsRead ks a r
      → Reads (f a) ks ls b
      → IsRead ls b (bind_reply r f)
  bind_reply-IsRead (ok c p) f (e, h) k = rw e (k.reads p h)
  bind_reply-IsRead (err x) f h k = absurd h
  bind_reply-IsRead out_of_fuel f h k = tt

  pub bind-Reads :
      {m : P A} (f : A → P B) {js ks ls : List TokenKind} {a : A} {b : B}
      → Reads m js ks a
      → Reads (f a) ks ls b
      → Reads (m >>= f) js ls b
  bind-Reads {m = m} f h k = record { reads = λ p e. bind_reply-IsRead (m p) f (h.reads p e) k }

-- The token at the position is of the first kind that is left.
pub record Next (p : Parser) (k : TokenKind) (ks : List TokenKind) : Type 0 where
  pub token : Token
  pub here : peek p ≡ some token
  pub is_kind : token.kind ≡ k
  pub after : left (advance p) ≡ ks

record At (ts : List Token) (i : ℕ) (k : TokenKind) (ks : List TokenKind) : Type 0 where
  token : Token
  here : get_elem? ts i ≡ some token
  is_kind : token.kind ≡ k
  after : kinds_from ts (suc i) ≡ ks

kinds_from-At :
    (ts : List Token) (i : ℕ) {k : TokenKind} {ks : List TokenKind}
    → kinds_from ts i ≡ k ∷ ks
    → At ts i k ks
kinds_from-At [] i e = cc
kinds_from-At (t ∷ ts) zero e = record { token = t; here = refl; is_kind = cc; after = cc }
kinds_from-At (t ∷ ts) (suc i) e =
    let found = kinds_from-At ts i e in
    record { token = found.token; here = found.here; is_kind = found.is_kind; after = found.after }

kinds_from-end : (ts : List Token) (i : ℕ) → kinds_from ts i ≡ [] → get_elem? ts i ≡ none
kinds_from-end [] i e = refl
kinds_from-end (t ∷ ts) zero e = cc
kinds_from-end (t ∷ ts) (suc i) e = kinds_from-end ts i e

pub left-Next : (p : Parser) {k : TokenKind} {ks : List TokenKind} → left p ≡ k ∷ ks → Next p k ks
unfolding peek
left-Next p e =
    let found = kinds_from-At p.tokens p.pos e in
    record {
      token = found.token;
      here = found.here;
      is_kind = found.is_kind;
      after = simp unary_clauses found.after;
    }

pub left-end : (p : Parser) → left p ≡ [] → peek p ≡ none
unfolding peek
left-end p e = kinds_from-end p.tokens p.pos e

pub expect_word-Reads : (w : Text) (ks : List TokenKind) → Reads expect_word (word w ∷ ks) ks w
unfolding expect_word
expect_word-Reads w ks = record {
  reads = λ p e.
      let next = left-Next p e in
      rw (expect_word, next.here, word_of, next.is_kind) (refl, next.after);
}

kind_eq_refl : (k : TokenKind) → kind_eq k k ≡ true
unfolding kind_eq
kind_eq_refl (word w) = (text_eq_iff w w).1 refl
kind_eq_refl lbrace = refl
kind_eq_refl rbrace = refl
kind_eq_refl semicolon = refl

pub expect-Reads : (k : TokenKind) (ks : List TokenKind) → Reads (expect k) (k ∷ ks) ks tt
unfolding expect
expect-Reads k ks = record {
  reads = λ p e.
      let next = left-Next p e in
      rw (expect, next.here, kind_of, next.is_kind, kind_eq_refl k) (refl, next.after);
}
