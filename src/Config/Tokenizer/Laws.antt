-- ===== src/Config/Tokenizer/Laws.antt =====
-- What the tokens hold: the text without its white space.
use localserver.Base.{
  ℕ, ◌+◌, ◌≡◌, refl, sym, ap, ◌∙◌, true, false, List, [], ◌∷◌, ◌++◌, append_assoc, append-nil,
  arith, ◌==◌, if◌then◌else◌, Bool-cases, ==_iff, inl, inr,
}
use localserver.Std.Text.{Text, is_whitespace}
use localserver.Config.Tokenizer.{
  TokenKind, word, lbrace, rbrace, semicolon, Token, Lexer, push_word, push_token, step, scan,
  start, tokenize,
}

abbrev pub kind_text : TokenKind → Text
kind_text (word s) = s
kind_text lbrace = b'{' ∷ []
kind_text rbrace = b'}' ∷ []
kind_text semicolon = b';' ∷ []

abbrev tokens_text : List Token → Text
tokens_text [] = []
tokens_text (t ∷ ts) = kind_text t.kind ++ tokens_text ts

-- The text without its white space.
abbrev visible : Text → Text
visible [] = []
visible (c ∷ s) = if is_whitespace c then visible s else c ∷ visible s

tokens_text-append : (a b : List Token) → tokens_text (a ++ b) ≡ tokens_text a ++ tokens_text b
tokens_text-append [] b = refl
tokens_text-append (t ∷ a) b =
    rw (tokens_text-append a b)
      (sym (append_assoc (kind_text t.kind) (tokens_text a) (tokens_text b)))

visible-cons : (c : ℕ) (s : Text) → visible (c ∷ []) ++ visible s ≡ visible (c ∷ s)
visible-cons c s = ground arith

-- All that has been read and is no white space.
abbrev held : Lexer → Text
held l = tokens_text l.tokens ++ l.current

-- A word that ends goes over to the tokens whole.
push_word-text :
    (l : Lexer) → (tokens_text (push_word l).tokens ≡ held l) × ((push_word l).current ≡ [])
unfolding push_word
push_word-text l = by_current l.current refl
  where
    by_current :
        (s : Text)
        → l.current ≡ s
        → (tokens_text (push_word l).tokens ≡ held l) × ((push_word l).current ≡ [])
    by_current [] e = simp (e, append-nil) (refl, refl)
    by_current (c ∷ s) e = simp e (
      tokens_text-append l.tokens _ ∙ ap (λ t. tokens_text l.tokens ++ t) (append-nil (c ∷ s)),
      refl,
    )

-- The ways of a step, by what the character is.
pub data StepCase (c : ℕ) (l : Lexer) : Type 0 where
  newline :
      (c == b'\n') ≡ true
      → is_whitespace c ≡ true
      → step c l ≡ record (push_word l) { line = l.line + 1 }
      → StepCase c l
  blank : (c == b'\n') ≡ false → is_whitespace c ≡ true → step c l ≡ push_word l → StepCase c l
  mark :
      (k : TokenKind)
      → is_whitespace c ≡ false
      → c ∷ [] ≡ kind_text k
      → step c l ≡ push_token k (push_word l)
      → StepCase c l
  plain :
      is_whitespace c ≡ false → step c l ≡ record l { current = l.current ++ c ∷ [] } → StepCase c l

-- A character that is the literal `d`, which is no white space.
is_lit :
    (c d : ℕ)
    → (c == d) ≡ true
    → is_whitespace d ≡ false
    → (is_whitespace c ≡ false) × (c ∷ [] ≡ d ∷ [])
is_lit c d e w = let same = (==_iff c d).0 e in (ap is_whitespace same ∙ w, ap (λ x. x ∷ []) same)

pub step-case : (c : ℕ) (l : Lexer) → StepCase c l
unfolding step
step-case c l = elim (Bool-cases (c == b'\n')) [
  | inl e ↦
      newline e (ap is_whitespace ((==_iff c b'\n').0 e) ∙ (unfold is_whitespace in refl)) (rw e)
  | inr e1 ↦ elim (Bool-cases (c == b'{')) [
    | inl e ↦
        let (w, k) = is_lit c b'{' e (unfold is_whitespace in refl) in mark lbrace w k (rw (e1, e))
    | inr e2 ↦ elim (Bool-cases (c == b'}')) [
      | inl e ↦
          let (w, k) = is_lit c b'}' e (unfold is_whitespace in refl) in
          mark rbrace w k (rw (e1, e2, e))
      | inr e3 ↦ elim (Bool-cases (c == b';')) [
        | inl e ↦
            let (w, k) = is_lit c b';' e (unfold is_whitespace in refl) in
            mark semicolon w k (rw (e1, e2, e3, e))
        | inr e4 ↦ elim (Bool-cases (is_whitespace c)) [
          | inl e ↦ blank e1 e (rw (e1, e2, e3, e4, e))
          | inr e ↦ plain e (rw (e1, e2, e3, e4, e))
        ]
      ]
    ]
  ]
]

push_token-text :
    (k : TokenKind) (l : Lexer) → l.current ≡ [] → held (push_token k l) ≡ held l ++ kind_text k
unfolding push_token
push_token-text k l e =
    simp (e, append-nil)
      (tokens_text-append l.tokens _
        ∙ ap (λ t. tokens_text l.tokens ++ t) (append-nil (kind_text k)))

step-held : (c : ℕ) (l : Lexer) → held (step c l) ≡ held l ++ visible (c ∷ [])
step-held c l =
    let (text, cur) = push_word-text l in
    elim (step-case c l) [
      | newline n w e ↦ simp (e, w, text, cur)
      | blank n w e ↦ simp (e, w, text, cur)
      | mark k w same e ↦
          let v : visible (c ∷ []) ≡ kind_text k = rw w same in
          ap held e ∙ push_token-text k (push_word l) cur ∙ simp (text, cur, v, append-nil)
      | plain w e ↦ simp (e, w, append_assoc)
    ]

scan-held : (l : Lexer) (input : Text) → tokens_text (scan l input).tokens ≡ held l ++ visible input
unfolding scan
scan-held l [] = (push_word-text l).0 ∙ sym (append-nil (held l))
scan-held l (c ∷ input) =
    scan-held (step c l) input
    ∙ ap (λ t. t ++ visible input) (step-held c l)
    ∙ append_assoc (held l) (visible (c ∷ [])) (visible input)
    ∙ ap (λ t. held l ++ t) (visible-cons c input)

-- The tokens hold the characters of the input that are not white space, in their order.
tokenize-visible : (input : Text) → tokens_text (tokenize input) ≡ visible input
unfolding tokenize
tokenize-visible input = scan-held start input
