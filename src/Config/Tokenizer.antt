-- ===== src/Config/Tokenizer.antt =====
-- src/config/tokenizer.rs: text to tokens with their lines.
pub mod Laws
pub mod Lines
use localserver.Base.{
  ℕ, ◌+◌, Bool, true, false, ◌&&◌, List, [], ◌∷◌, ◌++◌, ◌==◌, if◌then◌else◌, is_empty,
}
use localserver.Std.Text.{Text, is_whitespace, text_eq}

pub data TokenKind : Type 0 where
  word : Text → TokenKind
  lbrace rbrace semicolon : TokenKind

pub record Token : Type 0 where
  pub kind : TokenKind
  pub line : ℕ

-- The variables of the loop in `tokenize`.
pub record Lexer : Type 0 where
  pub tokens : List Token
  pub current : Text
  pub line : ℕ

unfoldable pub push_word : Lexer → Lexer
push_word l = if is_empty l.current then l else record l {
  tokens = l.tokens ++ record { kind = word l.current; line = l.line } ∷ [];
  current = [];
}

unfoldable pub push_token : TokenKind → Lexer → Lexer
push_token k l = record l { tokens = l.tokens ++ record { kind = k; line = l.line } ∷ [] }

unfoldable pub step : ℕ → Lexer → Lexer
unfolding push_word push_token
step c l =
    if c == b'\n'
    then record (push_word l) { line = l.line + 1 }
    else if c == b'{'
    then push_token lbrace (push_word l)
    else if c == b'}'
    then push_token rbrace (push_word l)
    else if c == b';'
    then push_token semicolon (push_word l)
    else if is_whitespace c
    then push_word l
    else record l { current = l.current ++ c ∷ [] }

unfoldable pub scan : Lexer → Text → Lexer
unfolding step
scan l [] = push_word l
scan l (c ∷ input) = scan (step c l) input

abbrev pub start : Lexer
start = record { tokens = []; current = []; line = 1 }

unfoldable pub tokenize : Text → List Token
unfolding scan
tokenize input = (scan start input).tokens

-- `PartialEq` on kinds.
unfoldable pub kind_eq : TokenKind → TokenKind → Bool
kind_eq (word s) (word t) = text_eq s t
kind_eq lbrace lbrace = true
kind_eq rbrace rbrace = true
kind_eq semicolon semicolon = true
kind_eq _ _ = false
