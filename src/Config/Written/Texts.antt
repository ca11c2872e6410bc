-- ===== src/Config/Written/Texts.antt =====
-- The text of a configuration that is written, through `tokenize` and `Config::from_file`.
use localserver.Base.{
  ℕ, ◌≡◌, refl, sym, ap, ◌∙◌, Bool, true, false, not, ◌&&◌, some, List, [], ◌∷◌, ◌++◌, append_assoc,
  append-nil, arith, ◌==◌, all, is_empty,
}
use localserver.Std.Text.{Text, is_whitespace, Unicode}
use localserver.Config.Data.{Config}
use localserver.Config.Tokenizer.{
  TokenKind, word, lbrace, rbrace, semicolon, Token, Lexer, push_word, push_token, step, scan,
  tokenize,
}
use localserver.Config.Load.{load_text, from_file, validate}
use localserver.Config.Written.{config_kinds, kinds_text, format_config}
use localserver.Config.Written.Reads.{kinds_from}
use localserver.Config.Written.Blocks.{IsConfig, parse_config-config_kinds}

abbrev pub is_plain : ℕ → Bool
is_plain c = not (is_whitespace c) && not (c == b'{') && not (c == b'}') && not (c == b';')

pub record IsBare (w : Text) : Type 0 where
  pub some_char : is_empty w ≡ false
  pub plain : all is_plain w ≡ true

-- The words among the kinds can be written bare.
abbrev pub AllBare : List TokenKind → Type 0
AllBare [] = Unit
AllBare (word w ∷ ks) = IsBare w × AllBare ks
AllBare (lbrace ∷ ks) = AllBare ks
AllBare (rbrace ∷ ks) = AllBare ks
AllBare (semicolon ∷ ks) = AllBare ks

-- The same as a test.
abbrev pub is_bare : TokenKind → Bool
is_bare (word w) = not (is_empty w) && all is_plain w
is_bare lbrace = true
is_bare rbrace = true
is_bare semicolon = true

pub all-AllBare : (ks : List TokenKind) → all is_bare ks ≡ true → AllBare ks
all-AllBare [] h = tt
all-AllBare (word w ∷ ks) h =
    (record { some_char = ground arith; plain = ground arith }, all-AllBare ks (ground arith))
all-AllBare (lbrace ∷ ks) h = all-AllBare ks h
all-AllBare (rbrace ∷ ks) h = all-AllBare ks h
all-AllBare (semicolon ∷ ks) h = all-AllBare ks h

abbrev lexer : List Token → Text → ℕ → Lexer
lexer ts current line = record { tokens = ts; current = current; line = line }

abbrev token : TokenKind → ℕ → Token
token k line = record { kind = k; line = line }

step-plain :
    (c : ℕ) (l : Lexer) → is_plain c ≡ true → step c l ≡ record l { current = l.current ++ c ∷ [] }
unfolding step is_whitespace
step-plain c l h = ground arith

scan-plain :
    (ts : List Token) (current w r : Text) (line : ℕ)
    → all is_plain w ≡ true
    → scan (lexer ts current line) (w ++ r) ≡ scan (lexer ts (current ++ w) line) r
unfolding scan
scan-plain ts current [] r line h = ap (λ s. scan (lexer ts s line) r) (sym (append-nil current))
scan-plain ts current (c ∷ w) r line h =
    let first : is_plain c ≡ true = ground arith in
    let others : all is_plain w ≡ true = ground arith in
    ap (λ l. scan l (w ++ r)) (step-plain c (lexer ts current line) first)
    ∙ scan-plain ts (current ++ c ∷ []) w r line others
    ∙ ap (λ s. scan (lexer ts s line) r) (append_assoc current (c ∷ []) w)

scan-word :
    (ts : List Token) (w r : Text) (line : ℕ)
    → IsBare w
    → scan (lexer ts [] line) (w ++ b' ' ∷ r)
      ≡ scan (lexer (ts ++ token (word w) line ∷ []) [] line) r
unfolding scan step push_word is_whitespace
scan-word ts w r line bare = scan-plain ts [] w (b' ' ∷ r) line bare.plain ∙ rw bare.some_char refl

kinds_from-append :
    (ts : List Token) (t : Token) → kinds_from (ts ++ t ∷ []) 0 ≡ kinds_from ts 0 ++ t.kind ∷ []
kinds_from-append [] t = refl
kinds_from-append (s ∷ ts) t = ap (λ ks. s.kind ∷ ks) (kinds_from-append ts t)

kinds-more :
    (ts : List Token) (k : TokenKind) (ks : List TokenKind) (line : ℕ) {found : List TokenKind}
    → found ≡ kinds_from (ts ++ token k line ∷ []) 0 ++ ks
    → found ≡ kinds_from ts 0 ++ k ∷ ks
kinds-more ts k ks line e =
    e
    ∙ ap (λ js. js ++ ks) (kinds_from-append ts (token k line))
    ∙ append_assoc (kinds_from ts 0) (k ∷ []) ks

scan-kinds :
    (ts : List Token) (ks : List TokenKind) (line : ℕ)
    → AllBare ks
    → kinds_from (scan (lexer ts [] line) (kinds_text ks)).tokens 0 ≡ kinds_from ts 0 ++ ks
unfolding scan step push_word push_token is_whitespace
scan-kinds ts [] line bare = sym (append-nil (kinds_from ts 0))
scan-kinds ts (word w ∷ ks) line (b, bare) =
    ap (λ l. kinds_from l.tokens 0) (scan-word ts w (kinds_text ks) line b)
    ∙ kinds-more ts (word w) ks line (scan-kinds (ts ++ token (word w) line ∷ []) ks line bare)
scan-kinds ts (lbrace ∷ ks) line bare =
    kinds-more ts lbrace ks line (scan-kinds (ts ++ token lbrace line ∷ []) ks line bare)
scan-kinds ts (rbrace ∷ ks) line bare =
    kinds-more ts rbrace ks line (scan-kinds (ts ++ token rbrace line ∷ []) ks line bare)
scan-kinds ts (semicolon ∷ ks) line bare =
    kinds-more ts semicolon ks line (scan-kinds (ts ++ token semicolon line ∷ []) ks line bare)

tokenize-kinds_text :
    (ks : List TokenKind) → AllBare ks → kinds_from (tokenize (kinds_text ks)) 0 ≡ ks
unfolding tokenize
tokenize-kinds_text ks bare = scan-kinds [] ks 1 bare

-- A configuration that a file can hold (a server at least, ports and codes of 16 bits, sizes below
-- 2^64, a path for each location, no code twice in a server) and whose words are not empty and have
-- no white space, brace or semicolon, is written to a text that the program loads as it was, up to
-- the check for servers with the same key.
pub from_file-format_config :
    (u : Unicode) (c : Config)
    → IsConfig c
    → AllBare (config_kinds c)
    → from_file u (some (format_config c)) ≡ validate c
unfolding from_file load_text format_config
from_file-format_config u c fits bare =
    let (p, read) =
      parse_config-config_kinds u (tokenize (kinds_text (config_kinds c))) c fits
        (tokenize-kinds_text (config_kinds c) bare) in
    rw (load_text, read) refl
