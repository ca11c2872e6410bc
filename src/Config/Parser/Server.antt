-- ===== src/Config/Parser/Server.antt =====
-- src/config/parser.rs: `parse_server` and `parse_config`.
use localserver.Base.{
  ℕ, zero, suc, ◌*◌, ◌+◌, Bool, true, false, Option, none, some, List, [], ◌∷◌, ◌++◌, if◌then◌else◌,
  is_empty, length,
}
use localserver.Std.Text.{Text, chars, text_eq, Unicode, to_lowercase}
use localserver.Std.Number.{from_str_radix, u16_bound}
use localserver.Std.Map.{insert}
use localserver.Std.Keys.{number_key}
use localserver.Config.Data.{Location, ServerConfig, Config}
use localserver.Config.Size.{parse_body_size}
use localserver.Config.Tokenizer.{word, lbrace, rbrace, semicolon, Token}
use localserver.Config.Parser.State.{
  unknown_top_level, no_server, invalid_port, invalid_size, invalid_code, unknown_server_directive,
  unexpected_in_server, unclosed_server, missing_host, missing_port, Reply, ok, err, out_of_fuel, P,
  ◌>>=◌, ◌>>◌, pure, fail, peek, advance, expect_word, expect, or_fail,
}
use localserver.Config.Parser.Location.{parse_location}

-- The variables of the loop in `parse_server`.
pub record Draft : Type 0 where
  pub host : Option Text
  pub port : Option ℕ
  pub server_name : Option Text
  pub client_max_body_size : ℕ
  pub error_pages : List (ℕ × Text)
  pub locations : List Location

abbrev pub parse_u16 : Text → Option ℕ
parse_u16 = from_str_radix 10 u16_bound

unfoldable pub server_directive : Unicode → ℕ → Text → Draft → P Draft
server_directive u fuel name d =
    if text_eq name (chars "host")
    then (do w ← expect_word; expect semicolon; pure (record d { host = some w }))
    else if text_eq name (chars "port")
    then (do
      raw ← expect_word
      n ← or_fail (parse_u16 raw) (invalid_port raw)
      expect semicolon
      pure (record d { port = some n }))
    else if text_eq name (chars "server_name")
    then (do w ← expect_word; expect semicolon; pure (record d { server_name = some w }))
    else if text_eq name (chars "client_max_body_size")
    then (do
      raw ← expect_word
      n ← or_fail (parse_body_size u raw) (invalid_size (to_lowercase u raw))
      expect semicolon
      pure (record d { client_max_body_size = n }))
    else if text_eq name (chars "error_page")
    then (do
      raw ← expect_word
      code ← or_fail (parse_u16 raw) (invalid_code raw)
      path ← expect_word
      expect semicolon
      pure (record d { error_pages = insert d.error_pages code path }))
    else if text_eq name (chars "location")
    then (do loc ← parse_location fuel; pure (record d { locations = d.locations ++ loc ∷ [] }))
    else fail (unknown_server_directive name)

unfoldable pub server_loop : Unicode → ℕ → Draft → P (Draft × Bool)
unfolding server_directive
server_loop u zero d p = out_of_fuel
server_loop u (suc fuel) d p = elim (peek p) [
  | none ↦ ok (d, false) p
  | some t ↦ elim t.kind [
    | rbrace ↦ ok (d, true) (advance p)
    | word _ ↦ (do name ← expect_word; d' ← server_directive u fuel name d; server_loop u fuel d') p
    | other ↦ fail (unexpected_in_server other) p
  ]
]

abbrev pub new_draft : Draft
new_draft = record {
  host = none;
  port = none;
  server_name = none;
  client_max_body_size = 1024 * 1024;
  error_pages = [];
  locations = [];
}

unfoldable pub finish_server : Draft × Bool → P ServerConfig
finish_server (d, false) = fail unclosed_server
finish_server (d, true) = do
  host ← or_fail d.host missing_host
  port ← or_fail d.port missing_port
  pure (record {
    host = host;
    port = port;
    server_name = d.server_name;
    client_max_body_size = d.client_max_body_size;
    error_pages = d.error_pages;
    locations = d.locations;
  })

unfoldable pub parse_server : Unicode → ℕ → P ServerConfig
unfolding server_loop finish_server
parse_server u fuel = do expect lbrace; end ← server_loop u fuel new_draft; finish_server end

unfoldable pub config_loop : Unicode → ℕ → List ServerConfig → P (List ServerConfig)
unfolding parse_server
config_loop u zero servers p = out_of_fuel
config_loop u (suc fuel) servers p = elim (peek p) [
  | none ↦ ok servers p
  | some _ ↦
      (do
        w ← expect_word
        (if text_eq w (chars "server")
            then (do server ← parse_server u fuel; config_loop u fuel (servers ++ server ∷ []))
            else fail (unknown_top_level w)))
        p
]

unfoldable pub finish_config : List ServerConfig → P Config
finish_config servers p =
    if is_empty servers
    then err (record { message = no_server; line = 0 })
    else ok (record { servers = servers }) p

-- Each round of each loop passes a token, so a round for each token and one is enough.
unfoldable pub parse_config : Unicode → List Token → Reply Config
unfolding config_loop finish_config parse_location
parse_config u tokens =
    (config_loop u (length tokens + 1) [] >>= finish_config) (record { tokens = tokens; pos = 0 })
