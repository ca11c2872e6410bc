-- ===== src/Tests/Configs.antt =====
-- Configurations: src/config and src/main.rs.
use localserver.Config.Parser.Ends.Server.{parse_config-finishes}
use localserver.Config.Parser.State.{Reply}
use localserver.Config.Parser.Server.{parse_config}
use localserver.Base.{◌≢◌}
use localserver.Tests.Samples.{ascii_only}
use localserver.Std.Map
use localserver.Base.{arith, true, ◌≡◌, ◌↔◌, refl, none, some, [], ◌∷◌}
use localserver.Std.Text.{Text, chars, text_eq, is_whitespace, trim, to_lowercase, strip_suffix}
use localserver.Std.Number.{from_str_radix, to_string_radix}
use localserver.Config.Data.{ConfigMethod, Config}
use localserver.Main.{main, started}
use localserver.Main.Groups.{AreListeners, main-AreListeners}
use localserver.Config.Size.{parse_body_size}
use localserver.Config.Tokenizer.{word, lbrace, rbrace, semicolon, tokenize, kind_eq}
use localserver.Config.Tokenizer.Lines.{token_chars, visible_chars, tokenize-chars}
use localserver.Config.Parser.Server.{parse_config}
use localserver.Config.Written.{config_kinds, format_config}
use localserver.Config.Written.Blocks.{IsConfig}
use localserver.Config.Written.Texts.{all-AllBare, from_file-format_config}
use localserver.Config.Load.{addr, loaded, duplicate, validate, from_file, group_servers}
use localserver.Config.Load.Differ.{AllDiffer, validate-AllDiffer}
use localserver.Config.Load.Unique.{group, servers_at, group_servers-servers_at}
use localserver.Tests.Samples.{ascii_only, place, site}

abbrev small_file : Text
small_file =
    chars "server { host 127.0.0.1;\n port 8080; location / { root ./www; methods GET POST; } }"

tokenize_sample :
    tokenize (chars "a {\nb;}")
    ≡ record { kind = word (chars "a"); line = 1 }
      ∷ record { kind = lbrace; line = 1 }
      ∷ record { kind = word (chars "b"); line = 2 }
      ∷ record { kind = semicolon; line = 2 }
      ∷ record { kind = rbrace; line = 2 }
      ∷ []
unfolding tokenize is_whitespace
tokenize_sample = refl

tokenize-chars_example : token_chars (tokenize small_file) ≡ visible_chars 1 small_file
tokenize-chars_example = tokenize-chars small_file

abbrev small_config : Config
small_config = record {
  servers =
      record {
        host = chars "127.0.0.1";
        port = 8080;
        server_name = none;
        client_max_body_size = 1048576;
        error_pages = [];
        locations =
            record (place (chars "/") (chars "./www")) {
              methods = ConfigMethod.get ∷ ConfigMethod.post ∷ [];
            }
            ∷ [];
      }
      ∷ [];
}

parse_sample : from_file ascii_only (some small_file) ≡ loaded small_config
unfolding from_file parse_config tokenize is_whitespace text_eq kind_eq from_str_radix
    to_string_radix
parse_sample = refl

started_sample :
    main ascii_only (λ path. some small_file) (chars "localserver" ∷ [])
    ≡ started (group_servers [] small_config.servers)
unfolding main
started_sample = rw (main, parse_sample) refl

main-AreListeners_example : AreListeners (group_servers [] small_config.servers)
main-AreListeners_example =
    main-AreListeners ascii_only (λ path. some small_file) (chars "localserver" ∷ []) started_sample

-- Two servers of one address, with names.
abbrev named_sites : Config
named_sites = record {
  servers =
      record site { server_name = some (chars "a") }
      ∷ record site { server_name = some (chars "b") }
      ∷ [];
}

validate-AllDiffer_example :
    (validate named_sites ≡ loaded named_sites) ↔ AllDiffer named_sites.servers
validate-AllDiffer_example =
    validate-AllDiffer named_sites ((refl, omega arith), ((refl, omega arith), tt))

named_sites_loaded : validate named_sites ≡ loaded named_sites
unfolding validate text_eq to_string_radix
named_sites_loaded = refl

duplicate_sample :
    validate (record { servers = site ∷ site ∷ [] }) ≡ duplicate (chars "127.0.0.1:8080:")
unfolding validate text_eq to_string_radix
duplicate_sample = refl

group_servers-servers_at_example :
    group (group_servers [] (site ∷ site ∷ [])) (addr site)
    ≡ servers_at (addr site) (site ∷ site ∷ [])
group_servers-servers_at_example = group_servers-servers_at (site ∷ site ∷ []) (addr site)

size_sample : parse_body_size ascii_only (chars "20MB") ≡ some 20971520
unfolding parse_body_size to_lowercase strip_suffix trim is_whitespace from_str_radix text_eq
size_sample = refl

parse_config-finishes_example :
    parse_config ascii_only (tokenize (chars "server { port")) ≢ Reply.out_of_fuel
parse_config-finishes_example = parse_config-finishes ascii_only (tokenize (chars "server { port"))

-- Two error pages, a name, a redirect and a script.
abbrev large_config : Config
large_config = record {
  servers =
      record {
        host = chars "127.0.0.1";
        port = 8080;
        server_name = some (chars "localhost");
        client_max_body_size = 4096;
        error_pages = (404, chars "./404.html") ∷ (500, chars "./500.html") ∷ [];
        locations =
            record {
              path = chars "/old";
              root = chars "./www";
              index = none;
              methods = ConfigMethod.get ∷ [];
              autoindex = true;
              redirect = some (chars "/new");
              cgi = some (record { extension = chars ".py"; interpreter = chars "python3" });
            }
            ∷ [];
      }
      ∷ [];
}

large_config-IsConfig : IsConfig large_config
unfolding Map.get
large_config-IsConfig = record {
  some_server = refl;
  all_servers = (
    record {
      port_fits = omega arith;
      size_fits = omega arith;
      codes_fit = (omega arith, (omega arith, tt));
      codes_differ = (refl, (refl, tt));
      some_paths = (refl, tt);
    },
    tt,
  );
}

from_file-format_config_example :
    from_file ascii_only (some (format_config large_config)) ≡ validate large_config
unfolding to_string_radix is_whitespace
from_file-format_config_example =
    from_file-format_config ascii_only large_config large_config-IsConfig
      (all-AllBare (config_kinds large_config) refl)
