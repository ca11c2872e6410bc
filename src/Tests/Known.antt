-- ===== src/Tests/Known.antt =====
-- A login, a request of somebody else, and a whoami at another listener: src/handler.rs.
use mathlib.Core.Option
use localserver.Base.{◌-◌, ◌≡◌, refl, true, none, [], arith, ltb, if◌then◌else◌, done}
use localserver.Std.Text.{chars, text_eq, starts_with}
use localserver.Std.Map.{get}
use localserver.Config.Data.{ServerConfig}
use localserver.Request.Message.{Request, session_id}
use localserver.Response.{forbidden}
use localserver.Session.{empty_store, lifetime}
use localserver.Handler.World.{Moment, World}
use localserver.Handler.Route.{match_location, matching, longest, max_by_len}
use localserver.Handler.Files.{error_response}
use localserver.Handler.Users.{page, handle_login, handle_whoami, current_user}
use localserver.Handler.Users.Flow.{login_id}
use localserver.Handler.Build.Pages.{is_login}
use localserver.Handler.Build.{build_response, session_route}
use localserver.Handler.Build.Sessions.{redirect_of, IsOther, Others, nobody, next}
use localserver.Handler.Build.Sessions.Known.{login-Others-whoami}
use localserver.Tests.Samples.{ascii_only, site, no_files, empty_world, no_processes, dawn}
use localserver.Tests.Users.{
  login_request, login_request_valid, next_request, next_request-SendsBack,
}

abbrev noon : Moment
noon = record dawn { now = 5 }

abbrev evening : Moment
evening = record dawn { now = 9 }

abbrev site_b : ServerConfig
site_b = record site { port = 9090 }

abbrev logged_in : World no_files
logged_in = record empty_world { store = (handle_login dawn login_request empty_store).1 }

login :
    build_response ascii_only no_files no_processes dawn site login_request empty_world
    ≡ done ((handle_login dawn login_request empty_store).0, logged_in)
unfolding build_response session_route text_eq match_location matching longest max_by_len
    starts_with Option.bind
login = refl

-- Somebody without a session asks who they are.
abbrev stranger : Request
stranger = record next_request { headers = [] }

asked :
    build_response ascii_only no_files no_processes noon site_b stranger logged_in
    ≡ done (error_response no_files tt forbidden site_b, logged_in)
unfolding build_response session_route text_eq match_location matching longest max_by_len
    starts_with Option.bind handle_whoami current_user session_id get
asked = refl

stranger-IsOther : IsOther (login_id dawn) noon stranger
unfolding text_eq
stranger-IsOther = record { other_login = λ h admin. cc; other_logout = λ h. cc }

others : Others ascii_only no_files no_processes (login_id dawn) 0 logged_in 5 logged_in
others = next noon site_b stranger _ nobody (omega arith) stranger-IsOther asked

no_redirect : (redirect_of site login_request ≡ none) × (redirect_of site_b next_request ≡ none)
unfolding match_location matching longest max_by_len starts_with Option.bind
no_redirect = (refl, refl)

is_login_page : is_login login_request ≡ true
unfolding text_eq
is_login_page = refl

login-Others-whoami_example :
    (after : World no_files) × (build_response ascii_only no_files no_processes evening site_b
        next_request logged_in
      ≡ done (
        if ltb lifetime (9 - 0)
            then error_response no_files tt forbidden site_b
            else page (chars "You are: admin"),
        after,
      ))
login-Others-whoami_example =
    login-Others-whoami ascii_only no_files no_processes dawn evening site site_b login_request
      next_request empty_world no_redirect.0 is_login_page login_request_valid (omega arith)
      (handle_login dawn login_request empty_store).0 logged_in login next_request-SendsBack refl
      no_redirect.1 logged_in others (omega arith)
