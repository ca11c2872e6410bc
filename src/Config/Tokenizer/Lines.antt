-- ===== src/Config/Tokenizer/Lines.antt =====
-- The tokens of `tokenize` and the lines of their characters.
use localserver.Base.{
  ℕ, ◌+◌, ◌≡◌, refl, sym, ap, ◌∙◌, false, List, [], ◌∷◌, ◌++◌, append_assoc, append-nil, arith,
  ◌==◌, if◌then◌else◌,
}
use localserver.Std.Text.{Text, is_whitespace}
use localserver.Config.Tokenizer.{
  TokenKind, Token, Lexer, push_word, push_token, step, scan, start, tokenize,
}
use localserver.Config.Tokenizer.Laws.{kind_text, newline, blank, mark, plain, step-case}

-- The characters, each with the line.
abbrev pub on_line : ℕ → Text → List (ℕ × ℕ)
on_line line [] = []
on_line line (c ∷ s) = (c, line) ∷ on_line line s

abbrev pub token_chars : List Token → List (ℕ × ℕ)
token_chars [] = []
token_chars (t ∷ ts) = on_line t.line (kind_text t.kind) ++ token_chars ts

-- The characters of a text that are no white space, each with its line, counted from `line` on.
abbrev pub visible_chars : ℕ → Text → List (ℕ × ℕ)
visible_chars line [] = []
visible_chars line (c ∷ s) =
    let rest = visible_chars (if c == b'\n' then line + 1 else line) s in
    if is_whitespace c then rest else (c, line) ∷ rest

on_line-append : (line : ℕ) (s t : Text) → on_line line (s ++ t) ≡ on_line line s ++ on_line line t
on_line-append line [] t = refl
on_line-append line (c ∷ s) t = ap (λ l. (c, line) ∷ l) (on_line-append line s t)

token_chars-append : (a b : List Token) → token_chars (a ++ b) ≡ token_chars a ++ token_chars b
token_chars-append [] b = refl
token_chars-append (t ∷ a) b =
    rw (token_chars-append a b)
      (sym (append_assoc (on_line t.line (kind_text t.kind)) (token_chars a) (token_chars b)))

-- All that has been read and is no white space.
abbrev held : Lexer → List (ℕ × ℕ)
held l = token_chars l.tokens ++ on_line l.line l.current

record Pushed (l : Lexer) : Type 0 where
  chars : token_chars (push_word l).tokens ≡ held l
  empty : (push_word l).current ≡ []
  line : (push_word l).line ≡ l.line

push_word-Pushed : (l : Lexer) → Pushed l
unfolding push_word
push_word-Pushed l = by_current l.current refl
  where
    by_current : (s : Text) → l.current ≡ s → Pushed l
    by_current [] e = record {
      chars = simp (e, append-nil) refl;
      empty = simp e refl;
      line = simp e refl;
    }
    by_current (c ∷ s) e = record {
      chars = simp e (
          token_chars-append l.tokens _
          ∙ ap (λ t. token_chars l.tokens ++ t) (append-nil (on_line l.line (c ∷ s))));
      empty = simp e refl;
      line = simp e refl;
    }

not_newline : (c : ℕ) → is_whitespace c ≡ false → (c == b'\n') ≡ false
unfolding is_whitespace
not_newline c w = ground arith

push_token-chars :
    (k : TokenKind) (l : Lexer)
    → l.current ≡ []
    → held (push_token k l) ≡ token_chars l.tokens ++ on_line l.line (kind_text k)
unfolding push_token
push_token-chars k l e =
    simp (e, append-nil)
      (token_chars-append l.tokens _
        ∙ ap (λ t. token_chars l.tokens ++ t) (append-nil (on_line l.line (kind_text k))))

push_token-line : (k : TokenKind) (l : Lexer) → (push_token k l).line ≡ l.line
unfolding push_token
push_token-line k l = refl

mark-chars :
    (c : ℕ) (k : TokenKind) (l : Lexer) (s : Text)
    → is_whitespace c ≡ false
    → c ∷ [] ≡ kind_text k
    → held (push_token k (push_word l)) ++ visible_chars (push_token k (push_word l)).line s
      ≡ held l ++ visible_chars l.line (c ∷ s)
mark-chars c k l s w same =
    let p = push_word-Pushed l in
    let here : held (push_token k (push_word l)) ≡ held l ++ (c, l.line) ∷ [] =
      push_token-chars k (push_word l) p.empty ∙ rw (p.chars, p.line, sym same) refl in
    ap (λ x. x ++ visible_chars (push_token k (push_word l)).line s) here
    ∙ rw (push_token-line k (push_word l), p.line, w, not_newline c w)
        (append_assoc (held l) ((c, l.line) ∷ []) (visible_chars l.line s))

-- What is held and what is to come do not change in a step.
step-chars :
    (c : ℕ) (l : Lexer) (s : Text)
    → held (step c l) ++ visible_chars (step c l).line s ≡ held l ++ visible_chars l.line (c ∷ s)
step-chars c l s =
    let p = push_word-Pushed l in
    elim (step-case c l) [
      | newline n w e ↦ simp (e, n, w, p.chars, p.empty, append-nil)
      | blank n w e ↦ simp (e, n, w, p.chars, p.empty, p.line, append-nil)
      | mark k w same e ↦ rw e (mark-chars c k l s w same)
      | plain w e ↦ simp (e, w, not_newline c w, on_line-append, append_assoc)
    ]

scan-chars :
    (l : Lexer) (input : Text)
    → token_chars (scan l input).tokens ≡ held l ++ visible_chars l.line input
unfolding scan
scan-chars l [] = (push_word-Pushed l).chars ∙ sym (append-nil (held l))
scan-chars l (c ∷ input) = scan-chars (step c l) input ∙ step-chars c l input

-- The tokens hold the characters of the input that are no white space, all of them and in their
-- order, and each token's line is the one on which all its characters stand, counted from 1.
pub tokenize-chars : (input : Text) → token_chars (tokenize input) ≡ visible_chars 1 input
unfolding tokenize
tokenize-chars input = scan-chars start input
