-- ===== src/Config/Written.antt =====
-- A configuration file as its author writes it: the kinds of the tokens, and the text that has them.
pub mod Reads
pub mod Locations
pub mod Numbers
pub mod Servers
pub mod Blocks
pub mod Texts
use localserver.Base.{
  ℕ, String, Bool, true, false, Option, none, some, List, [], ◌∷◌, ◌++◌, if◌then◌else◌,
}
use localserver.Std.Text.{Text, chars}
use localserver.Std.Number.{to_string}
use localserver.Config.Data.{ConfigMethod, Cgi, Location, ServerConfig, Config}
use localserver.Config.Tokenizer.{TokenKind, word, lbrace, rbrace, semicolon}

-- Each part is written before what follows it.
abbrev pub Part : Type 0
Part = List TokenKind → List TokenKind

abbrev pub directive : String → Text → Part
directive name value ks = word (chars name) ∷ word value ∷ semicolon ∷ ks

-- A part that may be missing.
abbrev pub optional : String → Option Text → Part
optional name none ks = ks
optional name (some value) ks = directive name value ks

abbrev pub each : {A : Type 0} → (A → Part) → List A → Part
each f [] ks = ks
each f (a ∷ l) ks = f a (each f l ks)

abbrev pub method_word : ConfigMethod → Text
method_word ConfigMethod.get = chars "GET"
method_word ConfigMethod.post = chars "POST"
method_word ConfigMethod.delete = chars "DELETE"

abbrev pub switch : Bool → Text
switch true = chars "on"
switch false = chars "off"

abbrev pub cgi_part : Option Cgi → Part
cgi_part none ks = ks
cgi_part (some c) ks = word (chars "cgi") ∷ word c.extension ∷ word c.interpreter ∷ semicolon ∷ ks

-- A location block behind its first word.
abbrev pub location_body : Location → Part
location_body loc ks =
    word loc.path
    ∷ lbrace
    ∷ directive "root" loc.root (
        optional "index" loc.index (
          word (chars "methods")
          ∷ each (λ m ls. word (method_word m) ∷ ls) loc.methods
              (semicolon
                ∷ directive "autoindex" (switch loc.autoindex)
                    (optional "redirect" loc.redirect (cgi_part loc.cgi (rbrace ∷ ks))))))

abbrev pub location_part : Location → Part
location_part loc ks = word (chars "location") ∷ location_body loc ks

abbrev pub error_page_part : ℕ × Text → Part
error_page_part (code, path) ks =
    word (chars "error_page") ∷ word (to_string code) ∷ word path ∷ semicolon ∷ ks

-- The directives of a server and the brace behind them.
abbrev pub server_directives : ServerConfig → Part
server_directives s ks = directive "host" s.host (
    directive "port" (to_string s.port) (
      optional "server_name" s.server_name (
        directive "client_max_body_size" (to_string s.client_max_body_size)
          (each error_page_part s.error_pages (each location_part s.locations (rbrace ∷ ks))))))

-- A server block behind its first word.
abbrev pub server_body : ServerConfig → Part
server_body s ks = lbrace ∷ server_directives s ks

abbrev pub server_part : ServerConfig → Part
server_part s ks = word (chars "server") ∷ server_body s ks

abbrev pub config_kinds : Config → List TokenKind
config_kinds c = each server_part c.servers []

-- A word or a mark, and a blank.
abbrev pub kinds_text : List TokenKind → Text
kinds_text [] = []
kinds_text (word w ∷ ks) = w ++ b' ' ∷ kinds_text ks
kinds_text (lbrace ∷ ks) = b'{' ∷ b' ' ∷ kinds_text ks
kinds_text (rbrace ∷ ks) = b'}' ∷ b' ' ∷ kinds_text ks
kinds_text (semicolon ∷ ks) = b';' ∷ b' ' ∷ kinds_text ks

-- The text of a configuration.
unfoldable pub format_config : Config → Text
format_config c = kinds_text (config_kinds c)
