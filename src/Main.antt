-- ===== src/Main.antt =====
-- src/main.rs: what the program starts.
pub mod Groups
use localserver.Base.{Option, List, [], ◌∷◌}
use localserver.Std.Text.{Text, chars, Unicode}
use localserver.Config.Data.{ServerConfig, Config}
use localserver.Config.Load.{
  Loaded, loaded, unreadable, bad_config, duplicate, out_of_time, from_file, group_servers,
}

-- The first argument behind the program's name.
unfoldable pub config_path : List Text → Text
config_path [] = chars "config.conf"
config_path (program ∷ []) = chars "config.conf"
config_path (program ∷ path ∷ rest) = path

-- A listener for each address with its servers, or the reason why nothing is started.
pub data Start : Type 0 where
  started : List (Text × List ServerConfig) → Start
  stopped : Loaded → Start

unfoldable pub start_groups : Loaded → Start
start_groups (loaded c) = started (group_servers [] c.servers)
start_groups unreadable = stopped unreadable
start_groups (bad_config e) = stopped (bad_config e)
start_groups (duplicate k) = stopped (duplicate k)
start_groups out_of_time = stopped out_of_time

-- `read` is `read_to_string`.
unfoldable pub main : Unicode → (Text → Option Text) → List Text → Start
unfolding config_path start_groups
main u read args = start_groups (from_file u (read (config_path args)))
