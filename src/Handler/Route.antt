-- ===== src/Handler/Route.antt =====
-- src/handler.rs: `match_location`, `is_method_allowed`, `find_cgi`, `strip_location_prefix`.
pub mod Longest
use mathlib.Core.Option
use localserver.Base.{
  ℕ, Bool, true, false, ◌||◌, Option, none, some, List, [], ◌∷◌, if◌then◌else◌, leb, ◌==◌, any,
  is_empty,
}
use localserver.Std.Text.{Text, chars, starts_with, ends_with, strip_prefix, trim_start_matches}
use localserver.Std.Utf8.{len}
use localserver.Config.Data.{ConfigMethod, Cgi, Location, ServerConfig}
use localserver.Request.Message.{Method}

unfoldable pub matching : Text → List Location → List Location
matching path [] = []
matching path (l ∷ locs) =
    let rest = matching path locs in if starts_with path l.path then l ∷ rest else rest

-- `max_by_key`: of several maxima the last is taken.
unfoldable pub max_by_len : Location → List Location → Location
max_by_len best [] = best
max_by_len best (l ∷ locs) = max_by_len (if leb (len best.path) (len l.path) then l else best) locs

unfoldable pub longest : List Location → Option Location
unfolding max_by_len
longest [] = none
longest (l ∷ locs) = some (max_by_len l locs)

unfoldable pub match_location : Text → ServerConfig → Option Location
unfolding matching longest
match_location path config = longest (matching path config.locations)

unfoldable pub same_method : Method → ConfigMethod → Bool
same_method Method.get ConfigMethod.get = true
same_method Method.post ConfigMethod.post = true
same_method Method.delete ConfigMethod.delete = true
same_method _ _ = false

unfoldable pub is_method_allowed : Method → Location → Bool
unfolding same_method
is_method_allowed m loc = is_empty loc.methods || any (same_method m) loc.methods

find_in : Text → Option Cgi → Option Cgi
find_in path none = none
find_in path (some c) = if ends_with path c.extension then some c else none

unfoldable pub find_cgi : Text → Location → Option Cgi
unfolding find_in
find_cgi path loc = find_in path loc.cgi

unfoldable pub strip_location_prefix : Text → Text → Text
strip_location_prefix url location =
    trim_start_matches (λ c. c == b'/') (Option.get_or (strip_prefix url location) url)
