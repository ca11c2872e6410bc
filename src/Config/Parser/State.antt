-- ===== src/Config/Parser/State.antt =====
-- src/config/errors.rs and src/config/parser.rs: errors, the parser's state and its token operations.
use localserver.Base.{ℕ, ◌+◌, Option, none, some, List, if◌then◌else◌, get_elem?}
use localserver.Std.Text.{Text}
use localserver.Config.Tokenizer.{TokenKind, word, Token, kind_eq}

-- The texts of the errors, one for each `format!`, with what they print.
pub data Message : Type 0 where
  expected_value : TokenKind → Message
  unexpected_end : Message
  expected_kind : TokenKind → TokenKind → Message
  expected_kind_at_end : TokenKind → Message
  unknown_top_level : Text → Message
  no_server : Message
  invalid_port : Text → Message
  invalid_size : Text → Message
  invalid_code : Text → Message
  unknown_server_directive : Text → Message
  unexpected_in_server : TokenKind → Message
  unclosed_server : Message
  missing_host missing_port : Message
  unknown_method : Text → Message
  bad_autoindex : Text → Message
  unknown_location_directive : Text → Message
  unexpected_in_location : TokenKind → Message
  unclosed_location : Text → Message
  empty_path : Message

pub record ParseError : Type 0 where
  pub message : Message
  pub line : ℕ

pub record Parser : Type 0 where
  pub tokens : List Token
  pub pos : ℕ

-- What a parser function comes to; `out_of_fuel` is the model's own.
pub data Reply {ℓ} (A : Type ℓ) : Type ℓ where
  ok : A → Parser → Reply A
  err : ParseError → Reply A
  out_of_fuel : Reply A

abbrev pub P : Type 0 → Type 0
P A = Parser → Reply A

abbrev pub bind_reply : {A B : Type 0} → Reply A → (A → P B) → Reply B
bind_reply (ok a p) f = f a p
bind_reply (err e) f = err e
bind_reply out_of_fuel f = out_of_fuel

infixl 5 ◌>>=◌ ◌>>◌
abbrev pub ◌>>=◌ : {A B : Type 0} → P A → (A → P B) → P B
◌>>=◌ m f p = bind_reply (m p) f

abbrev pub ◌>>◌ : {B : Type 0} → P (Unit {0}) → P B → P B
◌>>◌ m k = m >>= λ _. k

abbrev pub pure : {A : Type 0} → A → P A
pure a p = ok a p

-- An error at the parser's position, which is a number of tokens.
abbrev pub fail : {A : Type 0} → Message → P A
fail m p = err (record { message = m; line = p.pos })

unfoldable pub peek : Parser → Option Token
peek p = get_elem? p.tokens p.pos

-- `next`, on the token at the position.
abbrev pub advance : Parser → Parser
advance p = record p { pos = p.pos + 1 }

pub word_of : Option Token → P Text
word_of none p = err (record { message = unexpected_end; line = 0 })
word_of (some t) p = elim t.kind [
  | word w ↦ ok w p
  | other ↦ err (record { message = expected_value other; line = t.line })
]

unfoldable pub expect_word : P Text
unfolding peek word_of
expect_word p = word_of (peek p) (advance p)

pub kind_of : TokenKind → Option Token → P (Unit {0})
kind_of k none p = err (record { message = expected_kind_at_end k; line = 0 })
kind_of k (some t) p =
    if kind_eq t.kind k
    then ok tt p
    else err (record { message = expected_kind k t.kind; line = t.line })

unfoldable pub expect : TokenKind → P (Unit {0})
unfolding peek kind_of
expect k p = kind_of k (peek p) (advance p)

-- `e.ok_or(…)?` and `e.map_err(…)?`
abbrev pub or_fail : {A : Type 0} → Option A → Message → P A
or_fail none m = fail m
or_fail (some a) m = pure a
