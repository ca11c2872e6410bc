-- ===== src/Handler/Build.antt =====
-- src/handler.rs: `build_response` and `handle_with_route`.
pub mod Answers
pub mod Upload
pub mod Pages
pub mod Stores
pub mod Sessions
pub mod Deaf
use mathlib.Core.Option
use localserver.Base.{
  Bool, true, false, Option, none, some, ◌∷◌, ◌++◌, ◌&&◌, if◌then◌else◌, Outcome, done, ◌>>=◌,
}
use localserver.Std.Text.{Text, chars, text_eq, Unicode}
use localserver.Std.Utf8.{into_bytes}
use localserver.Config.Data.{Cgi, Location, ServerConfig}
use localserver.Request.Message.{Method, Request}
use localserver.Response.{not_found, method_not_allowed, Response, redirect}
use localserver.Cgi.Run.{Processes, run}
use localserver.Session.{SessionStore}
use localserver.Handler.Route.{match_location, is_method_allowed, find_cgi, strip_location_prefix}
use localserver.Handler.World.{FileSystem, Moment, World}
use localserver.Handler.Files.{error_response, serve_file, handle_post, handle_delete}
use localserver.Handler.Users.{handle_login, handle_logout, handle_whoami}

unfoldable pub redirect_page : Text → Text
redirect_page to =
    chars "<html><body>Redirecting to <a href='"
    ++ (to ++ (chars "'>" ++ (to ++ chars "</a></body></html>")))

abbrev pub is_post : Method → Bool
is_post Method.post = true
is_post _ = false

module _ (u : Unicode) (fs : FileSystem) (system : Processes) (m : Moment)
    (config : ServerConfig) where
  abbrev pub Handled : Type 0
  Handled = Outcome (Response × World fs)

  pub on_disk : Response × fs.Disk → World fs → Handled
  on_disk (r, disk) w = done (r, record w { disk = disk })

  pub on_store : Response × SessionStore → World fs → Handled
  on_store (r, store) w = done (r, record w { store = store })

  -- The request's own path is handed to `handle_post` and `handle_delete`; the adjusted copies
  -- that the source makes are not used.
  pub by_method : Method → Request → Location → World fs → Handled
  by_method Method.get req loc w = done (serve_file fs w.disk req.path loc.root config, w)
  by_method Method.post req loc w = on_disk (handle_post fs w.disk req loc.root config) w
  by_method Method.delete req loc w = on_disk (handle_delete fs w.disk req loc.root config) w
  by_method (Method.unknown _) req loc w =
      done (error_response fs w.disk method_not_allowed config, w)

  -- Scripts are for GET and POST.
  pub script_for : Method → Request → Location → Option Cgi
  script_for Method.get req loc = find_cgi req.path loc
  script_for Method.post req loc = find_cgi req.path loc
  script_for _ req loc = none

  unfoldable pub handle_at : Request → Location → World fs → Handled
  unfolding by_method script_for on_disk
  handle_at req loc w =
      if is_method_allowed req.method loc
      then (elim (script_for req.method req loc) [
        | some cgi ↦ (do
          r ←
              run u system cgi.interpreter
                (loc.root ++ b'/' ∷ strip_location_prefix req.path loc.path) req
          done (r, w))
        | none ↦ by_method req.method req loc w
      ])
      else done (error_response fs w.disk method_not_allowed config, w)

  unfoldable pub handle_with_route : Request → World fs → Handled
  unfolding handle_at
  handle_with_route req w = elim (match_location req.path config) [
    | none ↦ done (error_response fs w.disk not_found config, w)
    | some loc ↦ handle_at req loc w
  ]

  unfoldable pub session_route : Request → World fs → Handled
  unfolding handle_with_route on_store
  session_route req w =
      if text_eq req.path (chars "/login") && is_post req.method
      then on_store (handle_login m req w.store) w
      else if text_eq req.path (chars "/logout") && is_post req.method
      then on_store (handle_logout req w.store) w
      else if text_eq req.path (chars "/whoami")
      then on_store (handle_whoami fs w.disk m req config w.store) w
      else handle_with_route req w

  unfoldable pub build_response : Request → World fs → Handled
  unfolding session_route redirect_page
  build_response req w =
      elim (Option.bind (match_location req.path config) (λ (l : Location). l.redirect)) [
        | some to ↦ done (redirect to (into_bytes (redirect_page to)), w)
        | none ↦ session_route req w
      ]
