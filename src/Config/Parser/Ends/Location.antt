-- ===== src/Config/Parser/Ends/Location.antt =====
-- `parse_location` comes to an end.
use localserver.Base.{
  ℕ, String, zero, suc, ◌+◌, ◌-◌, ◌≤◌, ◌<◌, ◌≡◌, refl, Bool, true, false, some, Option-cases, inl,
  inr, List, [], ◌∷◌, ◌++◌, arith, length,
}
use localserver.Std.Text.{Text, chars, text_eq}
use localserver.Config.Data.{ConfigMethod, Location}
use localserver.Config.Tokenizer.{TokenKind, word, lbrace, rbrace, semicolon, Token}
use localserver.Config.Parser.State.{Parser, ◌>>=◌, ◌>>◌, pure, peek, expect_word, expect}
use localserver.Config.Parser.Location.{
  method_of, methods_loop, autoindex_of, parse_interpreter, location_directive, location_loop,
  new_location, finish_location, parse_location,
}
use localserver.Config.Parser.Ends.{
  IsFine, EndsFrom, pure-EndsFrom, fail-EndsFrom, if-EndsFrom, bind-EndsFrom, expect_word-IsFine,
  expect_word-EndsFrom, expect-EndsFrom,
}

module _ (ts : List Token) (lo : ℕ) where
  method_of-EndsFrom : (m : Text) → EndsFrom ts lo (method_of m)
  unfolding method_of
  method_of-EndsFrom m = search (if-EndsFrom, pure-EndsFrom, fail-EndsFrom)

  autoindex_of-EndsFrom : (v : Text) → EndsFrom ts lo (autoindex_of v)
  unfolding autoindex_of
  autoindex_of-EndsFrom v = search (if-EndsFrom, pure-EndsFrom, fail-EndsFrom)

module _ (ts : List Token) where
  methods_round :
      (fuel lo : ℕ) (ms : List ConfigMethod) (p : Parser)
      → p.tokens ≡ ts
      → lo ≤ p.pos
      → ((w : Text)
          → p.pos < length ts
          → EndsFrom ts
              (p.pos + 1)
              (do method ← method_of w; methods_loop fuel (ms ++ method ∷ [])))
      → IsFine ts lo (methods_loop (suc fuel) ms p)
  unfolding methods_loop
  methods_round fuel lo ms p e h more = elim (Option-cases (peek p)) [
    | inl gone ↦ rw (methods_loop, gone) (e, h)
    | inr (t, here) ↦ by_kind t here t.kind refl
  ]
    where
      by_kind :
          (t : Token)
          → peek p ≡ some t
          → (k : TokenKind) → t.kind ≡ k
          → IsFine ts lo (methods_loop (suc fuel) ms p)
      by_kind t here (word w) q = rw (methods_loop, here, q) (expect_word-IsFine ts lo _ p e h more)
      by_kind t here lbrace q = rw (methods_loop, here, q) (e, h)
      by_kind t here rbrace q = rw (methods_loop, here, q) (e, h)
      by_kind t here semicolon q = rw (methods_loop, here, q) (e, h)

  methods_loop-EndsFrom :
      (fuel lo : ℕ) (ms : List ConfigMethod)
      → length ts - lo < fuel
      → EndsFrom ts lo (methods_loop fuel ms)
  methods_loop-EndsFrom zero lo ms small = absurd (omega arith)
  methods_loop-EndsFrom (suc fuel) lo ms small = record {
    ends = λ p e h. methods_round fuel lo ms p e h (λ w inside.
        bind-EndsFrom ts (p.pos + 1) (method_of w) _ (method_of-EndsFrom ts (p.pos + 1) w)
          (λ method. methods_loop-EndsFrom fuel (p.pos + 1) (ms ++ method ∷ []) (omega arith)));
  }

  parse_interpreter-EndsFrom : (lo : ℕ) (ext : Text) → EndsFrom ts lo (parse_interpreter ext)
  unfolding parse_interpreter
  parse_interpreter-EndsFrom lo ext = record {
    ends = λ p e h. elim (Option-cases (peek p)) [
      | inl gone ↦ rw (parse_interpreter, gone) (e, h)
      | inr (t, here) ↦ by_kind p e h t here t.kind refl
    ];
  }
    where
      by_kind :
          (p : Parser)
          → p.tokens ≡ ts
          → lo ≤ p.pos
          → (t : Token) → peek p ≡ some t
          → (k : TokenKind) → t.kind ≡ k
          → IsFine ts lo (parse_interpreter ext p)
      by_kind p e h t here (word w) q =
          rw (parse_interpreter, here, q) ((expect_word-EndsFrom ts lo).ends p e h)
      by_kind p e h t here lbrace q = rw (parse_interpreter, here, q) (e, h)
      by_kind p e h t here rbrace q = rw (parse_interpreter, here, q) (e, h)
      by_kind p e h t here semicolon q = rw (parse_interpreter, here, q) (e, h)

  -- A directive of one word.
  pub word_directive-EndsFrom :
      {A : Type 0} (lo : ℕ) (f : Text → A)
      → EndsFrom ts lo (do w ← expect_word; expect semicolon; pure (f w))
  word_directive-EndsFrom lo f =
      search (bind-EndsFrom, pure-EndsFrom, expect_word-EndsFrom, expect-EndsFrom)

  location_directive-EndsFrom :
      (fuel lo : ℕ) (name : Text) (loc : Location)
      → length ts - lo < fuel
      → EndsFrom ts lo (location_directive fuel name loc)
  unfolding location_directive
  location_directive-EndsFrom fuel lo name loc small =
      let is = λ (s : String). text_eq name (chars s) in
      if-EndsFrom ts lo (is "root") _ _ (word_directive-EndsFrom lo (λ w. record loc { root = w }))
        (if-EndsFrom ts lo (is "index") _ _
          (word_directive-EndsFrom lo (λ w. record loc { index = some w }))
          (if-EndsFrom ts lo (is "methods") _ _
            (bind-EndsFrom ts lo (methods_loop fuel loc.methods) _
              (methods_loop-EndsFrom fuel lo loc.methods small)
              (λ ms. search (bind-EndsFrom, pure-EndsFrom, expect-EndsFrom)))
            (if-EndsFrom ts lo (is "autoindex") _ _
              (search (
                bind-EndsFrom, pure-EndsFrom, expect_word-EndsFrom, expect-EndsFrom,
                autoindex_of-EndsFrom,
              ))
              (if-EndsFrom ts lo (is "redirect") _ _
                (word_directive-EndsFrom lo (λ w. record loc { redirect = some w }))
                (if-EndsFrom ts lo (is "cgi") _ _
                  (search (
                    bind-EndsFrom, pure-EndsFrom, expect_word-EndsFrom, expect-EndsFrom,
                    parse_interpreter-EndsFrom,
                  ))
                  (fail-EndsFrom ts lo _))))))

  location_round :
      (fuel lo : ℕ) (loc : Location) (p : Parser)
      → p.tokens ≡ ts
      → lo ≤ p.pos
      → ((w : Text)
          → p.pos < length ts
          → EndsFrom ts
              (p.pos + 1)
              (do loc' ← location_directive fuel w loc; location_loop fuel loc'))
      → IsFine ts lo (location_loop (suc fuel) loc p)
  unfolding location_loop
  location_round fuel lo loc p e h more = elim (Option-cases (peek p)) [
    | inl gone ↦ rw (location_loop, gone) (e, h)
    | inr (t, here) ↦ by_kind t here t.kind refl
  ]
    where
      by_kind :
          (t : Token)
          → peek p ≡ some t
          → (k : TokenKind) → t.kind ≡ k
          → IsFine ts lo (location_loop (suc fuel) loc p)
      by_kind t here (word w) q =
          rw (location_loop, here, q) (expect_word-IsFine ts lo _ p e h more)
      by_kind t here lbrace q = rw (location_loop, here, q) tt
      by_kind t here rbrace q = rw (location_loop, here, q) (e, omega arith)
      by_kind t here semicolon q = rw (location_loop, here, q) tt

  location_loop-EndsFrom :
      (fuel lo : ℕ) (loc : Location)
      → length ts - lo < fuel
      → EndsFrom ts lo (location_loop fuel loc)
  location_loop-EndsFrom zero lo loc small = absurd (omega arith)
  location_loop-EndsFrom (suc fuel) lo loc small = record {
    ends = λ p e h. location_round fuel lo loc p e h (λ w inside.
        bind-EndsFrom ts (p.pos + 1) (location_directive fuel w loc) _
          (location_directive-EndsFrom fuel (p.pos + 1) w loc (omega arith))
          (λ loc'. location_loop-EndsFrom fuel (p.pos + 1) loc' (omega arith)));
  }

  finish_location-EndsFrom : (lo : ℕ) (end : Location × Bool) → EndsFrom ts lo (finish_location end)
  unfolding finish_location
  finish_location-EndsFrom lo (loc, false) = fail-EndsFrom ts lo _
  finish_location-EndsFrom lo (loc, true) = search (if-EndsFrom, pure-EndsFrom, fail-EndsFrom)

  pub parse_location-EndsFrom :
      (fuel lo : ℕ) → length ts - lo < fuel → EndsFrom ts lo (parse_location fuel)
  unfolding parse_location
  parse_location-EndsFrom fuel lo small =
      bind-EndsFrom ts lo expect_word _ (expect_word-EndsFrom ts lo) (λ path.
        bind-EndsFrom ts lo (expect lbrace) _ (expect-EndsFrom ts lo lbrace) (λ _.
          bind-EndsFrom ts lo (location_loop fuel (new_location path)) _
            (location_loop-EndsFrom fuel lo (new_location path) small)
            (finish_location-EndsFrom lo)))
