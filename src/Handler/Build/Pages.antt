-- ===== src/Handler/Build/Pages.antt =====
-- The ways of `session_route`.
use localserver.Base.{◌≡◌, refl, Bool, true, false, ◌&&◌, ◌||◌, Bool-cases, inl, inr, arith}
use localserver.Std.Text.{chars, text_eq, Unicode}
use localserver.Config.Data.{ServerConfig}
use localserver.Request.Message.{Request}
use localserver.Cgi.Run.{Processes}
use localserver.Handler.World.{FileSystem, Moment, World}
use localserver.Handler.Users.{handle_login, handle_logout, handle_whoami}
use localserver.Handler.Build.{is_post, on_store, handle_with_route, session_route}

-- The three pages that look at sessions, two of them by POST only.
abbrev pub is_login : Request → Bool
is_login req = text_eq req.path (chars "/login") && is_post req.method

abbrev pub is_logout : Request → Bool
is_logout req = text_eq req.path (chars "/logout") && is_post req.method

abbrev pub is_whoami : Request → Bool
is_whoami req = text_eq req.path (chars "/whoami")

abbrev pub is_session_page : Request → Bool
is_session_page req = is_login req || is_logout req || is_whoami req

module _ (u : Unicode) (fs : FileSystem) (system : Processes) (m : Moment) (config : ServerConfig)
    (req : Request) (w : World fs) where
  pub data Page : Type 0 where
    login :
        is_login req ≡ true
        → session_route u fs system m config req w
          ≡ on_store u fs system m config (handle_login m req w.store) w
        → Page
    logout :
        is_logout req ≡ true
        → session_route u fs system m config req w
          ≡ on_store u fs system m config (handle_logout req w.store) w
        → Page
    whoami :
        is_whoami req ≡ true
        → session_route u fs system m config req w
          ≡ on_store u fs system m config (handle_whoami fs w.disk m req config w.store) w
        → Page
    other :
        is_session_page req ≡ false
        → session_route u fs system m config req w ≡ handle_with_route u fs system m config req w
        → Page

  pub page_of : Page
  unfolding session_route
  page_of = elim (Bool-cases (is_login req)) [
    | inl a ↦ login a (rw (session_route, a) refl)
    | inr a ↦ elim (Bool-cases (is_logout req)) [
      | inl b ↦ logout b (rw (session_route, a, b) refl)
      | inr b ↦ elim (Bool-cases (is_whoami req)) [
        | inl c ↦ whoami c (rw (session_route, a, b, c) refl)
        | inr c ↦ other (ground arith) (rw (session_route, a, b, c) refl)
      ]
    ]
  ]
