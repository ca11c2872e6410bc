-- ===== src/Handler/Build/Sessions/Known.antt =====
-- A session over many requests: a login, what other clients ask in between, and a whoami.
use mathlib.Core.Path.{subst}
use localserver.Base.{
  ℕ, ◌≤◌, ◌-◌, ltb, if◌then◌else◌, ◌≡◌, refl, sym, ap, ◌∙◌, Bool, true, false, ◌&&◌, none, some,
  done,
}
use localserver.Std.Text.{chars, text_eq, Unicode}
use localserver.Config.Data.{ServerConfig}
use localserver.Request.Message.{Request}
use localserver.Response.{Response, forbidden}
use localserver.Cgi.Run.{Processes}
use localserver.Session.{SessionStore, lifetime, is_expired}
use localserver.Session.Kept.{Kept, there, Kept-later, get_value-of}
use localserver.Session.Lifetime.{session_with, set-begun}
use localserver.Handler.World.{FileSystem, Moment, World}
use localserver.Handler.Files.{error_response}
use localserver.Std.Map
use localserver.Std.Map.{insert}
use localserver.Std.Keys.{text_key}
use localserver.Handler.Users.{is_admin, page, handle_login, handle_whoami}
use localserver.Handler.Users.Flow.{
  login_id, login_store, login_cookie, SendsBack, whoami-session, user_page,
}
use localserver.Handler.Build.{is_post, on_store, session_route, build_response}
use localserver.Handler.Build.Pages.{is_login, is_logout, is_whoami}
use localserver.Handler.Build.Sessions.{redirect_of, Others, Others-Kept, on_store-done}

module _ (u : Unicode) (fs : FileSystem) (system : Processes) where
  build_response-login :
      (m : Moment) (config : ServerConfig) (req : Request) (w : World fs)
      → redirect_of config req ≡ none
      → is_login req ≡ true
      → build_response u fs system m config req w
        ≡ on_store u fs system m config (handle_login m req w.store) w
  unfolding build_response session_route
  build_response-login m config req w stays posted =
      rw (build_response, stays, session_route, posted) refl

  build_response-whoami :
      (m : Moment) (config : ServerConfig) (req : Request) (w : World fs)
      → redirect_of config req ≡ none
      → req.path ≡ chars "/whoami"
      → build_response u fs system m config req w
        ≡ on_store u fs system m config (handle_whoami fs w.disk m req config w.store) w
  unfolding build_response session_route text_eq
  build_response-whoami m config req w stays page =
      let no_login : is_login req ≡ false =
        ap (λ p. text_eq p (chars "/login") && is_post req.method) page in
      let no_logout : is_logout req ≡ false =
        ap (λ p. text_eq p (chars "/logout") && is_post req.method) page in
      let asked : is_whoami req ≡ true = ap (λ p. text_eq p (chars "/whoami")) page in
      rw (build_response, stays, session_route, no_login, no_logout, asked) refl

  page_until :
      (b : Bool) (disk : fs.Disk) (config : ServerConfig)
      → user_page fs disk config (if b then none else some (chars "admin"))
        ≡ (if b then error_response fs disk forbidden config else page (chars "You are: admin"))
  unfolding user_page
  page_until true disk config = refl
  page_until false disk config = refl

  -- The store as a login leaves it.
  login-Kept :
      (m : Moment) (config : ServerConfig) (req : Request) (w : World fs)
      → redirect_of config req ≡ none
      → is_login req ≡ true
      → is_admin req ≡ true
      → m.now - m.begun ≤ lifetime
      → (r : Response) (after : World fs)
      → build_response u fs system m config req w ≡ done (r, after)
      → ((handle_login m req w.store).0 ≡ r)
        × Kept
            (login_id m)
            (session_with m.begun (chars "username") (chars "admin"))
            m.now
            after.store
  login-Kept m config req w stays posted admin soon r after e =
      let (same, left) =
        on_store-done u fs system m config (handle_login m req w.store) w r after
          (sym (build_response-login m config req w stays posted) ∙ e) in
      (
        same,
        there (
            ap (λ (st : SessionStore). Map.get st.sessions (login_id m))
              (sym left ∙ login_store m req w.store admin)
            ∙ set-begun m.begun m.now (login_id m) (chars "username") (chars "admin") w.store soon),
      )

  -- A user logs in at one listener of the program. Whatever requests other clients then have answered,
  -- at any listener, none of which draws the same id for a session or logs out of this one: a request
  -- for /whoami with the session that the login's answer gave, at any listener, is answered with the
  -- user's name until an hour after the session began, and with the error page of status 403 from
  -- then on. The pages are not redirected, and the login writes to the session within an hour of
  -- making it.
  pub login-Others-whoami :
      (m later : Moment) (config here : ServerConfig) (req back : Request) (before : World fs)
      → redirect_of config req ≡ none
      → is_login req ≡ true
      → is_admin req ≡ true
      → m.now - m.begun ≤ lifetime
      → (r : Response) (start : World fs)
      → build_response u fs system m config req before ≡ done (r, start)
      → SendsBack r back
      → back.path ≡ chars "/whoami"
      → redirect_of here back ≡ none
      → {now : ℕ} (w : World fs) → Others u fs system (login_id m) m.now start now w
      → now ≤ later.now
      → (after : World fs) × (build_response u fs system later here back w
          ≡ done (
            if ltb lifetime (later.now - m.begun)
                then error_response fs w.disk forbidden here
                else page (chars "You are: admin"),
            after,
          ))
  unfolding on_store is_expired Map.get insert text_eq
  login-Others-whoami m later config here req back before stays posted admin soon r start e sends
        path direct {now} w others le =
      let s = session_with m.begun (chars "username") (chars "admin") in
      let (answer, k) = login-Kept m config req before stays posted admin soon r start e in
      let known =
        login_cookie m req before.store admin back
          (subst (λ x. SendsBack x back) (sym answer) sends) in
      let kept =
        Kept-later (login_id m) s now later.now w.store le
          (Others-Kept u fs system (login_id m) s k others) in
      let read = get_value-of (login_id m) s later.now w.store (chars "username") kept in
      (
        record w { store = (handle_whoami fs w.disk later back here w.store).1 },
        build_response-whoami later here back w direct path
            ∙ ap
                (λ x.
                  done
                    (x, record w { store = (handle_whoami fs w.disk later back here w.store).1 }))
                (whoami-session fs w.disk here later back w.store (login_id m) known
                  ∙ ap (user_page fs w.disk here) read
                  ∙ page_until (ltb lifetime (later.now - m.begun)) w.disk here),
      )
