-- ===== src/Config/Load.antt =====
-- src/config/mod.rs: `Config::from_file` and `addr`; src/main.rs: servers grouped by address.
pub mod Unique
pub mod Differ
use mathlib.Core.Option
use localserver.Base.{
  ℕ, Bool, true, false, Option, none, some, List, [], ◌∷◌, ◌++◌, if◌then◌else◌, any,
}
use localserver.Std.Text.{Text, text_eq, Unicode}
use localserver.Std.Number.{to_string}
use localserver.Std.Map
use localserver.Std.Map.{insert}
use localserver.Std.Keys.{text_key}
use localserver.Config.Data.{ServerConfig, Config}
use localserver.Config.Tokenizer.{tokenize}
use localserver.Config.Parser.State.{ParseError, Reply, ok, err, out_of_fuel}
use localserver.Config.Parser.Server.{parse_config}

unfoldable pub addr : ServerConfig → Text
addr s = s.host ++ b':' ∷ to_string s.port

-- `host:port:server_name`, with nothing for a missing name.
unfoldable pub server_key : ServerConfig → Text
server_key s = s.host ++ b':' ∷ (to_string s.port ++ b':' ∷ Option.get_or s.server_name [])

pub data Loaded : Type 0 where
  loaded : Config → Loaded
  unreadable : Loaded
  bad_config : ParseError → Loaded
  duplicate : Text → Loaded
  out_of_time : Loaded

-- `HashSet::contains`
unfoldable pub is_member : Text → List Text → Bool
is_member k seen = any (text_eq k) seen

-- The first key that has been seen before.
unfoldable pub find_duplicate : List Text → List ServerConfig → Option Text
unfolding is_member server_key
find_duplicate seen [] = none
find_duplicate seen (s ∷ servers) =
    let rest = find_duplicate (server_key s ∷ seen) servers in
    if is_member (server_key s) seen then some (server_key s) else rest

unfoldable pub validate : Config → Loaded
unfolding find_duplicate
validate c = elim (find_duplicate [] c.servers) [ none ↦ loaded c | some k ↦ duplicate k ]

unfoldable pub load_text : Unicode → Option Text → Loaded
load_text u none = unreadable
load_text u (some content) = elim (parse_config u (tokenize content)) [
  | ok c _ ↦ validate c
  | err e ↦ bad_config e
  | out_of_fuel ↦ out_of_time
]

-- `from_file`, on what `read_to_string` gave.
unfoldable pub from_file : Unicode → Option Text → Loaded
unfolding load_text validate
from_file u content = load_text u content

-- src/main.rs: one listener for each address, with its servers in order.
unfoldable pub add_server :
    List (Text × List ServerConfig) → ServerConfig → List (Text × List ServerConfig)
unfolding addr
add_server groups s = insert groups (addr s) (Option.get_or (Map.get groups (addr s)) [] ++ s ∷ [])

unfoldable pub group_servers :
    List (Text × List ServerConfig) → List ServerConfig → List (Text × List ServerConfig)
unfolding add_server
group_servers groups [] = groups
group_servers groups (s ∷ servers) = group_servers (add_server groups s) servers
