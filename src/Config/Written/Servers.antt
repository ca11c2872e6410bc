-- ===== src/Config/Written/Servers.antt =====
-- `parse_server` and its directives as they are written.
use mathlib.Core.Path.{subst}
use localserver.Base.{
  ℕ, zero, suc, ◌<◌, ◌≡◌, sym, Bool, false, Option, none, some, List, [], ◌∷◌, ◌++◌, append_assoc,
  append-nil, is_empty,
}
use localserver.Std.Text.{Text, chars, text_eq, Unicode, to_lowercase}
use localserver.Std.Number.{to_string, u16_bound, usize_bound}
use localserver.Std.Map.{insert}
use localserver.Std.Map.Distinct.{Distinct, insert-new, Distinct-before}
use localserver.Std.Keys.{number_key}
use localserver.Config.Data.{Location, ServerConfig}
use localserver.Config.Tokenizer.{TokenKind, word, semicolon}
use localserver.Config.Parser.State.{invalid_port, invalid_size, invalid_code}
use localserver.Config.Parser.Server.{Draft, server_directive, server_loop}
use localserver.Config.Written.{
  directive, optional, each, location_body, location_part, error_page_part,
}
use localserver.Config.Written.Reads.{
  Reads, pure-Reads, or_fail-Reads, bind-Reads, left-Next, expect_word-Reads, expect-Reads,
}
use localserver.Config.Written.Numbers.{parse_u16-to_string, parse_body_size-to_string}
use localserver.Config.Written.Locations.{value-Reads, parse_location-Reads}

-- Codes are of 16 bits.
abbrev pub AllCodes : List (ℕ × Text) → Type 0
AllCodes [] = Unit
AllCodes ((code, path) ∷ pages) = (code < u16_bound) × AllCodes pages

abbrev pub AllPaths : List Location → Type 0
AllPaths [] = Unit
AllPaths (loc ∷ locs) = (is_empty loc.path ≡ false) × AllPaths locs

-- A server that a file can hold.
pub record IsServer (s : ServerConfig) : Type 0 where
  pub port_fits : s.port < u16_bound
  pub size_fits : s.client_max_body_size < usize_bound
  pub codes_fit : AllCodes s.error_pages
  pub codes_differ : Distinct s.error_pages
  pub some_paths : AllPaths s.locations

module _ (u : Unicode) (rest : List TokenKind) (end : Draft × Bool) where
  -- The loop reads the kinds from these variables on.
  abbrev pub From : Draft → List TokenKind → Type 0
  From d ls = (fuel : ℕ) → Reads (server_loop u fuel d) ls rest end

  server_loop-directive :
      (name : Text) (d after : Draft) (ls ks : List TokenKind)
      → ((fuel : ℕ) → Reads (server_directive u fuel name d) ls ks after)
      → From after ks
      → From d (word name ∷ ls)
  unfolding server_loop
  server_loop-directive name d after ls ks one more zero = record { reads = λ p e. tt }
  server_loop-directive name d after ls ks one more (suc fuel) = record {
    reads = λ p e.
        let next = left-Next p e in
        rw (server_loop, next.here, next.is_kind)
          ((bind-Reads _ (expect_word-Reads name ls) (bind-Reads _ (one fuel) (more fuel))).reads p
            e);
  }

  pub host-From :
      (d : Draft) (w : Text) (ks : List TokenKind)
      → From (record d { host = some w }) ks
      → From d (directive "host" w ks)
  unfolding server_directive text_eq
  host-From d w ks =
      server_loop-directive (chars "host") d _ _ ks
        (λ fuel. value-Reads (λ v. record d { host = some v }) w ks)

  pub port-From :
      (d : Draft) (n : ℕ) (ks : List TokenKind)
      → n < u16_bound
      → From (record d { port = some n }) ks
      → From d (directive "port" (to_string n) ks)
  unfolding server_directive text_eq
  port-From d n ks fits = server_loop-directive (chars "port") d _ _ ks (λ fuel.
      bind-Reads _ (expect_word-Reads (to_string n) (semicolon ∷ ks)) (
        bind-Reads _
          (or_fail-Reads (invalid_port (to_string n)) (semicolon ∷ ks) (parse_u16-to_string n fits))
          (bind-Reads _ (expect-Reads semicolon ks) (pure-Reads _ ks))))

  pub server_name-From :
      (d : Draft) (o : Option Text) (ks : List TokenKind)
      → From (record d { server_name = o }) ks
      → From (record d { server_name = none }) (optional "server_name" o ks)
  unfolding server_directive text_eq
  server_name-From d none ks = λ more. more
  server_name-From d (some w) ks =
      server_loop-directive (chars "server_name") (record d { server_name = none }) _ _ ks
        (λ fuel. value-Reads (λ v. record d { server_name = some v }) w ks)

  pub size-From :
      (d : Draft) (n : ℕ) (ks : List TokenKind)
      → n < usize_bound
      → From (record d { client_max_body_size = n }) ks
      → From d (directive "client_max_body_size" (to_string n) ks)
  unfolding server_directive text_eq
  size-From d n ks fits = server_loop-directive (chars "client_max_body_size") d _ _ ks (λ fuel.
      bind-Reads _ (expect_word-Reads (to_string n) (semicolon ∷ ks)) (
        bind-Reads _
          (or_fail-Reads (invalid_size (to_lowercase u (to_string n))) (semicolon ∷ ks)
            (parse_body_size-to_string u n fits))
          (bind-Reads _ (expect-Reads semicolon ks) (pure-Reads _ ks))))

  error_page-Reads :
      (fuel : ℕ) (d : Draft) (code : ℕ) (path : Text) (ks : List TokenKind)
      → code < u16_bound
      → Reads
          (server_directive u fuel (chars "error_page") d)
          (word (to_string code) ∷ word path ∷ semicolon ∷ ks)
          ks
          (record d { error_pages = insert d.error_pages code path })
  unfolding server_directive text_eq
  error_page-Reads fuel d code path ks fits =
      bind-Reads _ (expect_word-Reads (to_string code) (word path ∷ semicolon ∷ ks)) (
        bind-Reads _
          (or_fail-Reads (invalid_code (to_string code)) (word path ∷ semicolon ∷ ks)
            (parse_u16-to_string code fits))
          (value-Reads (λ v. record d { error_pages = insert d.error_pages code v }) path ks))

  location-Reads :
      (fuel : ℕ) (d : Draft) (loc : Location) (ks : List TokenKind)
      → is_empty loc.path ≡ false
      → Reads
          (server_directive u fuel (chars "location") d)
          (location_body loc ks)
          ks
          (record d { locations = d.locations ++ loc ∷ [] })
  unfolding server_directive text_eq
  location-Reads fuel d loc ks some_path =
      bind-Reads _ (parse_location-Reads fuel loc ks some_path) (pure-Reads _ ks)

  pub error_pages-From :
      (d : Draft) (before pages : List (ℕ × Text)) (ks : List TokenKind)
      → AllCodes pages
      → Distinct (before ++ pages)
      → From (record d { error_pages = before ++ pages }) ks
      → From (record d { error_pages = before }) (each error_page_part pages ks)
  error_pages-From d before [] ks fit differ more =
      subst (λ pages. From (record d { error_pages = pages }) ks) (append-nil before) more
  error_pages-From d before ((code, path) ∷ pages) ks (fits, fit) differ more =
      let here : Draft = record d { error_pages = before } in
      let step : insert before code path ≡ before ++ (code, path) ∷ [] =
        insert-new before code path (Distinct-before before pages code path differ) in
      let grouped = append_assoc before ((code, path) ∷ []) pages in
      server_loop-directive (chars "error_page") here
        (record d { error_pages = before ++ (code, path) ∷ [] }) _ (each error_page_part pages ks)
        (λ fuel.
          subst
            (λ m.
              Reads (server_directive u fuel (chars "error_page") here)
                (word (to_string code) ∷ word path ∷ semicolon ∷ each error_page_part pages ks)
                (each error_page_part pages ks) (record d { error_pages = m }))
            step (error_page-Reads fuel here code path (each error_page_part pages ks) fits))
        (error_pages-From d (before ++ (code, path) ∷ []) pages ks fit
          (subst Distinct (sym grouped) differ)
          (subst (λ m. From (record d { error_pages = m }) ks) (sym grouped) more))

  pub locations-From :
      (d : Draft) (before locs : List Location) (ks : List TokenKind)
      → AllPaths locs
      → From (record d { locations = before ++ locs }) ks
      → From (record d { locations = before }) (each location_part locs ks)
  locations-From d before [] ks paths more =
      subst (λ l. From (record d { locations = l }) ks) (append-nil before) more
  locations-From d before (loc ∷ locs) ks (some_path, paths) more =
      let here : Draft = record d { locations = before } in
      server_loop-directive (chars "location") here (record d { locations = before ++ loc ∷ [] }) _
        (each location_part locs ks)
        (λ fuel. location-Reads fuel here loc (each location_part locs ks) some_path)
        (locations-From d (before ++ loc ∷ []) locs ks paths (
          subst (λ l. From (record d { locations = l }) ks)
            (sym (append_assoc before (loc ∷ []) locs)) more))
