-- ===== src/Config/Written/Blocks.antt =====
-- `parse_config` on the tokens of a configuration that is written.
use mathlib.Core.Path.{subst}
use localserver.Base.{
  ℕ, zero, suc, ◌+◌, ◌≡◌, refl, sym, ap, Bool, true, false, some, List, [], ◌∷◌, ◌++◌, append_assoc,
  append-nil, is_empty, length,
}
use localserver.Std.Text.{chars, text_eq, Unicode}
use localserver.Config.Data.{ServerConfig, Config}
use localserver.Config.Tokenizer.{TokenKind, Token, lbrace, rbrace}
use localserver.Config.Parser.State.{Parser, Reply, ok, err, out_of_fuel}
use localserver.Config.Parser.Server.{
  Draft, new_draft, server_loop, finish_server, parse_server, config_loop, finish_config,
  parse_config,
}
use localserver.Config.Parser.Ends.Server.{parse_config-finishes}
use localserver.Config.Written.{each, server_directives, server_body, server_part, config_kinds}
use localserver.Config.Written.Reads.{
  kinds_from, IsRead, Reads, pure-Reads, bind-Reads, left-Next, left-end, expect_word-Reads,
  expect-Reads,
}
use localserver.Config.Written.Servers.{
  IsServer, From, host-From, port-From, server_name-From, size-From, error_pages-From,
  locations-From,
}

abbrev pub AllServers : List ServerConfig → Type 0
AllServers [] = Unit
AllServers (s ∷ servers) = IsServer s × AllServers servers

-- A configuration that a file can hold.
pub record IsConfig (c : Config) : Type 0 where
  pub some_server : is_empty c.servers ≡ false
  pub all_servers : AllServers c.servers

-- The variables that make this server.
abbrev draft_of : ServerConfig → Draft
draft_of s = record {
  host = some s.host;
  port = some s.port;
  server_name = s.server_name;
  client_max_body_size = s.client_max_body_size;
  error_pages = s.error_pages;
  locations = s.locations;
}

module _ (u : Unicode) where
  server_loop-end : (d : Draft) (ks : List TokenKind) → From u ks (d, true) d (rbrace ∷ ks)
  unfolding server_loop
  server_loop-end d ks zero = record { reads = λ p e. tt }
  server_loop-end d ks (suc fuel) = record {
    reads = λ p e.
        let next = left-Next p e in rw (server_loop, next.here, next.is_kind) (refl, next.after);
  }

  finish_server-Reads :
      (s : ServerConfig) (ks : List TokenKind) → Reads (finish_server (draft_of s, true)) ks ks s
  unfolding finish_server
  finish_server-Reads s ks = pure-Reads s ks

  server_loop-Reads :
      (s : ServerConfig) (ks : List TokenKind)
      → IsServer s
      → (fuel : ℕ)
      → Reads (server_loop u fuel new_draft) (server_directives s ks) ks (draft_of s, true)
  server_loop-Reads s ks fits =
      let end : Draft × Bool = (draft_of s, true) in
      let a : Draft = record (draft_of s) { locations = [] } in
      let b : Draft = record a { error_pages = [] } in
      let c : Draft = record new_draft { host = some s.host; port = some s.port } in
      host-From u ks end new_draft s.host _ (
        port-From u ks end (record new_draft { host = some s.host }) s.port _ fits.port_fits
          (server_name-From u ks end c s.server_name _ (
            size-From u ks end (record c { server_name = s.server_name }) s.client_max_body_size _
              fits.size_fits
              (error_pages-From u ks end a [] s.error_pages _ fits.codes_fit fits.codes_differ (
                locations-From u ks end (draft_of s) [] s.locations _ fits.some_paths
                  (server_loop-end (draft_of s) ks))))))

  parse_server-Reads :
      (fuel : ℕ) (s : ServerConfig) (ks : List TokenKind)
      → IsServer s
      → Reads (parse_server u fuel) (server_body s ks) ks s
  unfolding parse_server
  parse_server-Reads fuel s ks fits =
      bind-Reads _ (expect-Reads lbrace (server_directives s ks))
        (bind-Reads _ (server_loop-Reads s ks fits fuel) (finish_server-Reads s ks))

  config_loop-Reads :
      (fuel : ℕ) (before servers : List ServerConfig)
      → AllServers servers
      → Reads (config_loop u fuel before) (each server_part servers []) [] (before ++ servers)
  unfolding config_loop text_eq
  config_loop-Reads zero before servers fit = record { reads = λ p e. tt }
  config_loop-Reads (suc fuel) before [] fit = record {
    reads = λ p e. rw (config_loop, left-end p e) (sym (append-nil before), e);
  }
  config_loop-Reads (suc fuel) before (s ∷ servers) (fits, fit) = record {
    reads = λ p e.
        let next = left-Next p e in
        let more =
          subst (Reads (config_loop u fuel (before ++ s ∷ [])) (each server_part servers []) [])
            (append_assoc before (s ∷ []) servers)
            (config_loop-Reads fuel (before ++ s ∷ []) servers fit) in
        rw (config_loop, next.here)
          ((bind-Reads _
              (expect_word-Reads (chars "server") (server_body s (each server_part servers [])))
              (bind-Reads _ (parse_server-Reads fuel s (each server_part servers []) fits)
                more)).reads
            p e);
  }

  finish_config-Reads :
      (c : Config) → is_empty c.servers ≡ false → Reads (finish_config c.servers) [] [] c
  unfolding finish_config
  finish_config-Reads c some_server = record {
    reads = λ p e. rw (finish_config, some_server) (refl, e);
  }

-- A reply that is read, and not for want of fuel, is the value.
ok-IsRead :
    {A : Type 0} (r : Reply A) (a : A)
    → IsRead [] a r
    → (r ≡ out_of_fuel → ⊥)
    → (p : Parser) × (r ≡ ok a p)
ok-IsRead (ok b p) a (e, h) ended = (p, ap (λ x. ok x p) e)
ok-IsRead (err x) a h ended = absurd h
ok-IsRead out_of_fuel a h ended = absurd (ended refl)

-- Tokens of the kinds that are written for a configuration are parsed to it.
pub parse_config-config_kinds :
    (u : Unicode) (tokens : List Token) (c : Config)
    → IsConfig c
    → kinds_from tokens 0 ≡ config_kinds c
    → (p : Parser) × (parse_config u tokens ≡ ok c p)
unfolding parse_config
parse_config-config_kinds u tokens c fits kinds =
    ok-IsRead (parse_config u tokens) c
      ((bind-Reads finish_config
          (config_loop-Reads u (length tokens + 1) [] c.servers fits.all_servers)
          (finish_config-Reads u c fits.some_server)).reads
        (record { tokens = tokens; pos = 0 }) kinds)
      (parse_config-finishes u tokens)
