-- ===== src/Config/Parser/Ends/Server.antt =====
-- `parse_server` and `parse_config` come to an end.
use localserver.Base.{
  ℕ, String, zero, suc, ◌+◌, ◌-◌, ◌≤◌, ◌<◌, ◌≡◌, ◌≢◌, refl, Bool, true, false, some, Option-cases,
  inl, inr, List, [], ◌∷◌, ◌++◌, arith, length,
}
use localserver.Std.Text.{Text, chars, text_eq, Unicode}
use localserver.Std.Keys.{number_key}
use localserver.Config.Data.{ServerConfig}
use localserver.Config.Tokenizer.{TokenKind, word, lbrace, rbrace, semicolon, Token}
use localserver.Config.Parser.State.{Parser, out_of_fuel, ◌>>=◌, peek, expect}
use localserver.Config.Parser.Server.{
  Draft, server_directive, server_loop, new_draft, finish_server, parse_server, config_loop,
  finish_config, parse_config,
}
use localserver.Config.Parser.Ends.{
  IsFine, EndsFrom, pure-EndsFrom, fail-EndsFrom, or_fail-EndsFrom, if-EndsFrom, bind-EndsFrom,
  expect_word-IsFine, expect_word-EndsFrom, expect-EndsFrom,
}
use localserver.Config.Parser.Ends.Location.{word_directive-EndsFrom, parse_location-EndsFrom}

module _ (u : Unicode) (ts : List Token) where
  server_directive-EndsFrom :
      (fuel lo : ℕ) (name : Text) (d : Draft)
      → length ts - lo < fuel
      → EndsFrom ts lo (server_directive u fuel name d)
  unfolding server_directive
  server_directive-EndsFrom fuel lo name d small =
      let is = λ (s : String). text_eq name (chars s) in
      if-EndsFrom ts lo (is "host") _ _
        (word_directive-EndsFrom ts lo (λ w. record d { host = some w }))
        (if-EndsFrom ts lo (is "port") _ _
          (search
            (bind-EndsFrom, pure-EndsFrom, or_fail-EndsFrom, expect_word-EndsFrom, expect-EndsFrom))
          (if-EndsFrom ts lo (is "server_name") _ _
            (word_directive-EndsFrom ts lo (λ w. record d { server_name = some w }))
            (if-EndsFrom ts lo (is "client_max_body_size") _ _
              (search (
                bind-EndsFrom, pure-EndsFrom, or_fail-EndsFrom, expect_word-EndsFrom,
                expect-EndsFrom,
              ))
              (if-EndsFrom ts lo (is "error_page") _ _
                (search (
                  bind-EndsFrom, pure-EndsFrom, or_fail-EndsFrom, expect_word-EndsFrom,
                  expect-EndsFrom,
                ))
                (if-EndsFrom ts lo (is "location") _ _
                  (search (bind-EndsFrom, pure-EndsFrom, parse_location-EndsFrom ts fuel lo small))
                  (fail-EndsFrom ts lo _))))))

  server_round :
      (fuel lo : ℕ) (d : Draft) (p : Parser)
      → p.tokens ≡ ts
      → lo ≤ p.pos
      → ((w : Text)
          → p.pos < length ts
          → EndsFrom ts (p.pos + 1) (do d' ← server_directive u fuel w d; server_loop u fuel d'))
      → IsFine ts lo (server_loop u (suc fuel) d p)
  unfolding server_loop
  server_round fuel lo d p e h more = elim (Option-cases (peek p)) [
    | inl gone ↦ rw (server_loop, gone) (e, h)
    | inr (t, here) ↦ by_kind t here t.kind refl
  ]
    where
      by_kind :
          (t : Token)
          → peek p ≡ some t
          → (k : TokenKind) → t.kind ≡ k
          → IsFine ts lo (server_loop u (suc fuel) d p)
      by_kind t here (word w) q = rw (server_loop, here, q) (expect_word-IsFine ts lo _ p e h more)
      by_kind t here lbrace q = rw (server_loop, here, q) tt
      by_kind t here rbrace q = rw (server_loop, here, q) (e, omega arith)
      by_kind t here semicolon q = rw (server_loop, here, q) tt

  server_loop-EndsFrom :
      (fuel lo : ℕ) (d : Draft) → length ts - lo < fuel → EndsFrom ts lo (server_loop u fuel d)
  server_loop-EndsFrom zero lo d small = absurd (omega arith)
  server_loop-EndsFrom (suc fuel) lo d small = record {
    ends = λ p e h. server_round fuel lo d p e h (λ w inside.
        bind-EndsFrom ts (p.pos + 1) (server_directive u fuel w d) _
          (server_directive-EndsFrom fuel (p.pos + 1) w d (omega arith))
          (λ d'. server_loop-EndsFrom fuel (p.pos + 1) d' (omega arith)));
  }

  finish_server-EndsFrom : (lo : ℕ) (end : Draft × Bool) → EndsFrom ts lo (finish_server end)
  unfolding finish_server
  finish_server-EndsFrom lo (d, false) = fail-EndsFrom ts lo _
  finish_server-EndsFrom lo (d, true) = search (bind-EndsFrom, pure-EndsFrom, or_fail-EndsFrom)

  parse_server-EndsFrom :
      (fuel lo : ℕ) → length ts - lo < fuel → EndsFrom ts lo (parse_server u fuel)
  unfolding parse_server
  parse_server-EndsFrom fuel lo small =
      bind-EndsFrom ts lo (expect lbrace) _ (expect-EndsFrom ts lo lbrace) (λ _.
        bind-EndsFrom ts lo (server_loop u fuel new_draft) _
          (server_loop-EndsFrom fuel lo new_draft small) (finish_server-EndsFrom lo))

  config_loop-EndsFrom :
      (fuel lo : ℕ) (servers : List ServerConfig)
      → length ts - lo < fuel
      → EndsFrom ts lo (config_loop u fuel servers)
  unfolding config_loop
  config_loop-EndsFrom zero lo servers small = absurd (omega arith)
  config_loop-EndsFrom (suc fuel) lo servers small = record {
    ends = λ p e h. elim (Option-cases (peek p)) [
      | inl gone ↦ rw (config_loop, gone) (e, h)
      | inr (t, here) ↦
          rw (config_loop, here)
            (expect_word-IsFine ts lo _ p e h (λ w inside.
              if-EndsFrom ts (p.pos + 1) (text_eq w (chars "server")) _ _
                (bind-EndsFrom ts (p.pos + 1) (parse_server u fuel) _
                  (parse_server-EndsFrom fuel (p.pos + 1) (omega arith))
                  (λ server.
                    config_loop-EndsFrom fuel (p.pos + 1) (servers ++ server ∷ []) (omega arith)))
                (fail-EndsFrom ts (p.pos + 1) _)))
    ];
  }

  finish_config-EndsFrom :
      (lo : ℕ) (servers : List ServerConfig) → EndsFrom ts lo (finish_config servers)
  unfolding finish_config
  finish_config-EndsFrom lo [] = record { ends = λ p e h. tt }
  finish_config-EndsFrom lo (s ∷ servers) = record { ends = λ p e h. (e, h) }

-- The parser of configurations comes to an end on every list of tokens: it gives a configuration
-- or an error.
pub parse_config-finishes :
    (u : Unicode) (tokens : List Token) → parse_config u tokens ≢ out_of_fuel
parse_config-finishes u tokens e =
    let fine : IsFine tokens 0 (parse_config u tokens) =
      unfold parse_config in
      (bind-EndsFrom tokens 0 (config_loop u (length tokens + 1) []) finish_config
          (config_loop-EndsFrom u tokens (length tokens + 1) 0 [] (omega arith))
          (finish_config-EndsFrom u tokens 0)).ends
        (record { tokens = tokens; pos = 0 }) refl (omega arith) in
    rw e at fine
