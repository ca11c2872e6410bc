-- ===== src/Handler/Build/Deaf.antt =====
-- A script that does not read the body of its request.
use localserver.Base.{
  ◌≡◌, refl, ap, ◌∙◌, true, false, some, none, ◌∷◌, ◌++◌, arith, is_empty, never,
}
use localserver.Std.Text.{Unicode}
use localserver.Std.Keys.{number_key}
use localserver.Config.Data.{Cgi, Location, ServerConfig}
use localserver.Request.Message.{Method, Request}
use localserver.Cgi.Run.{Processes, Child, left_full, command_of, feed, write_input, run}
use localserver.Handler.World.{FileSystem, Moment, World}
use localserver.Handler.Route.{match_location, is_method_allowed, find_cgi, strip_location_prefix}
use localserver.Handler.Build.{script_for, handle_at, handle_with_route, build_response}
use localserver.Handler.Build.Pages.{is_session_page, page_of, login, logout, whoami, other}
use localserver.Handler.Build.Sessions.{redirect_of}
use localserver.Server.Read.{}

-- A POST with a body to a script that is started and leaves its input full.
pub record IsDeafScript (system : Processes) (config : ServerConfig) (req : Request)
    (loc : Location) (cgi : Cgi) (child : Child) : Type 0 where
  pub direct : redirect_of config req ≡ none
  pub no_page : is_session_page req ≡ false
  pub found : match_location req.path config ≡ some loc
  pub posts : req.method ≡ Method.post
  pub allowed : is_method_allowed Method.post loc ≡ true
  pub script : find_cgi req.path loc ≡ some cgi
  pub started :
      system.spawn
        (command_of cgi.interpreter
          (loc.root ++ b'/' ∷ strip_location_prefix req.path loc.path)
          req)
        req.body
      ≡ some child
  pub some_body : is_empty req.body ≡ false
  pub deaf : child.input ≡ left_full

module _ (u : Unicode) (fs : FileSystem) (system : Processes) (config : ServerConfig)
    (req : Request) (loc : Location) (cgi : Cgi) (child : Child)
    (d : IsDeafScript system config req loc cgi child) where
  run-stalls :
      run u system cgi.interpreter (loc.root ++ b'/' ∷ strip_location_prefix req.path loc.path) req
      ≡ never
  unfolding run feed
  run-stalls =
      let stuck : feed req.body child ≡ never =
        rw (feed, d.some_body) (ap (λ i. write_input i child) d.deaf) in
      rw (run, d.started, stuck) refl

  pub build_response-stalls :
      (m : Moment) (w : World fs) → build_response u fs system m config req w ≡ never
  unfolding build_response handle_with_route handle_at script_for
  build_response-stalls m w =
      let may : is_method_allowed req.method loc ≡ true =
        ap (λ x. is_method_allowed x loc) d.posts ∙ d.allowed in
      let script : script_for u fs system m config req.method req loc ≡ some cgi =
        ap (λ x. script_for u fs system m config x req loc) d.posts ∙ d.script in
      let routed : handle_at u fs system m config req loc w ≡ never =
        rw (handle_at, may, script, run-stalls) refl in
      let route : handle_with_route u fs system m config req w ≡ never =
        rw (handle_with_route, d.found) routed in
      rw (build_response, d.direct)
        (elim (page_of u fs system m config req w) [
          | login h e ↦ absurd (ground arith)
          | logout h e ↦ absurd (ground arith)
          | whoami h e ↦ absurd (ground arith)
          | other h e ↦ e ∙ route
        ])
