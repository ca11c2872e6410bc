-- ===== src/Handler/Users.antt =====
-- src/handler.rs: `handle_login`, `handle_logout` and `handle_whoami`.
pub mod Flow
pub mod Kept
use mathlib.Core.Option
use localserver.Base.{Bool, ◌&&◌, Option, none, some, List, [], ◌∷◌, ◌++◌, if◌then◌else◌, ◌==◌}
use localserver.Std.Text.{Text, chars, text_eq, split, split_once}
use localserver.Std.Utf8.{from_utf8_lossy, into_bytes}
use localserver.Std.Map
use localserver.Std.Map.{insert}
use localserver.Std.Keys.{text_key}
use localserver.Config.Data.{ServerConfig}
use localserver.Request.Message.{Dict, Request, session_id}
use localserver.Response.{okay, forbidden, Response, new, set_cookie}
use localserver.Session.{SessionStore, create, set, get_value, destroy}
use localserver.Session.Identifier.{generate_id}
use localserver.Handler.World.{FileSystem, Moment}
use localserver.Handler.Files.{error_response}

unfoldable pub add_param : Dict → Text → Dict
add_param params pair = elim (split_once b'=' pair) [
  | none ↦ params
  | some (k, v) ↦ insert params k v
]

unfoldable pub add_params : Dict → List Text → Dict
unfolding add_param
add_params params [] = params
add_params params (pair ∷ rest) = add_params (add_param params pair) rest

unfoldable pub form_params : Request → Dict
unfolding add_params
form_params req = add_params [] (split (λ c. c == b'&') (from_utf8_lossy req.body))

abbrev pub param : Dict → Text → Text
param params name = Option.get_or (Map.get params name) []

unfoldable pub is_admin : Request → Bool
unfolding form_params
is_admin req =
    let params = form_params req in
    text_eq (param params (chars "username")) (chars "admin")
    && text_eq (param params (chars "password")) (chars "secret")

abbrev pub page : Text → Response
page title =
    new okay (chars "text/html")
      (into_bytes (chars "<html><body><h1>" ++ (title ++ chars "</h1></body></html>")))

unfoldable pub handle_login : Moment → Request → SessionStore → Response × SessionStore
unfolding is_admin
handle_login m req st =
    let id = generate_id m.nanos m.pid in
    let (done, after) =
      set m.now id (chars "username") (param (form_params req) (chars "username"))
        (create m.begun id st) in
    if is_admin req
    then (set_cookie (chars "session_id") id (page (chars "Logged in!")), after)
    else (page (chars "Invalid credentials"), st)

unfoldable pub handle_logout : Request → SessionStore → Response × SessionStore
handle_logout req st = (
  set_cookie (chars "session_id") (chars "deleted; Max-Age=0") (page (chars "Logged out")),
  elim (session_id req) [ none ↦ st | some id ↦ destroy id st ],
)

-- The user of the request's session.
unfoldable pub current_user : Moment → Request → SessionStore → Option Text × SessionStore
current_user m req st = elim (session_id req) [
  | none ↦ (none, st)
  | some id ↦ get_value m.now id (chars "username") st
]

unfoldable pub handle_whoami :
    (fs : FileSystem)
    → fs.Disk
    → Moment
    → Request
    → ServerConfig
    → SessionStore
    → Response × SessionStore
unfolding current_user
handle_whoami fs disk m req config st =
    let (user, after) = current_user m req st in
    (
      elim user [
        | some name ↦ page (chars "You are: " ++ name)
        | none ↦ error_response fs disk forbidden config
      ],
      after,
    )
