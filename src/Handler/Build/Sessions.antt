-- ===== src/Handler/Build/Sessions.antt =====
-- What the requests of other clients, to any listener, leave of a session.
pub mod Known
use mathlib.Core.Option
use mathlib.Core.Path.{subst}
use localserver.Base.{
  ℕ, ◌≤◌, ◌-◌, ltb, if◌then◌else◌, ◌≡◌, ◌≢◌, refl, sym, ap, ◌∙◌, Bool, true, false, ◌&&◌, &&_split,
  ◌||◌, Option, none, some, arith, Option-cases, Bool-cases, inl, inr, Outcome, done,
}
use localserver.Std.Text.{Text, chars, text_eq, Unicode}
use localserver.Config.Data.{Location, ServerConfig}
use localserver.Request.Message.{Request, session_id}
use localserver.Response.{Response, forbidden}
use localserver.Cgi.Run.{Processes}
use localserver.Session.{Session, SessionStore, lifetime, is_expired}
use localserver.Session.Kept.{Kept, there, Kept-later, get_value-of}
use localserver.Session.Lifetime.{session_with, set-begun}
use localserver.Handler.World.{FileSystem, Moment, World}
use localserver.Handler.Files.{error_response}
use localserver.Std.Map
use localserver.Std.Map.{insert}
use localserver.Std.Keys.{text_key}
use localserver.Handler.Route.{match_location}
use localserver.Handler.Users.{is_admin, page, handle_login, handle_logout, handle_whoami}
use localserver.Handler.Users.Flow.{
  login_id, login_store, login_cookie, SendsBack, whoami-session, user_page,
}
use localserver.Handler.Users.Kept.{handle_login-Kept, handle_logout-Kept, handle_whoami-Kept}
use localserver.Handler.Build.{is_post, on_store, session_route, build_response}
use localserver.Handler.Build.Stores.{KeepsStore, handle_with_route-KeepsStore}
use localserver.Handler.Build.Pages.{
  is_session_page, is_login, is_logout, is_whoami, page_of, login, logout, whoami, other,
}

abbrev pub redirect_of : ServerConfig → Request → Option Text
redirect_of config req = Option.bind (match_location req.path config) (λ (l : Location). l.redirect)

-- A request that neither draws this id for a session of its own nor logs out of this session.
pub record IsOther (id : Text) (m : Moment) (req : Request) : Type 0 where
  pub other_login : is_login req ≡ true → is_admin req ≡ true → text_eq (login_id m) id ≡ false
  pub other_logout : is_logout req ≡ true → session_id req ≢ some id

module _ (u : Unicode) (fs : FileSystem) (system : Processes) where
  -- Requests that are answered one after the other, by any of the program's listeners: the listener
  -- holds the store's lock from the first operation of a request on the store to the last.
  pub data Others (id : Text) (now : ℕ) (w : World fs) : ℕ → World fs → Type 0 where
    nobody : Others id now w now w
    next :
        {before : ℕ} {mid after : World fs} (m : Moment) (config : ServerConfig) (req : Request)
        (r : Response)
        → Others id now w before mid
        → before ≤ m.now
        → IsOther id m req
        → build_response u fs system m config req mid ≡ done (r, after)
        → Others id now w m.now after

  pub on_store-done :
      (m : Moment) (config : ServerConfig) (p : Response × SessionStore) (w : World fs)
      (r : Response) (after : World fs)
      → on_store u fs system m config p w ≡ done (r, after)
      → (p.0 ≡ r) × (p.1 ≡ after.store)
  unfolding on_store
  on_store-done m config (x, store) w r after e =
      let same : record w { store = store } ≡ after = cc in
      (cc, ap (λ (v : World fs). v.store) same)

  module _ (id : Text) (s : Session) (m : Moment) (config : ServerConfig) (req : Request)
      (w : World fs) (k : Kept id s m.now w.store) (others : IsOther id m req) where
    KeptBy : Outcome (Response × World fs) → Type 0
    KeptBy o = (r : Response) (after : World fs) → o ≡ done (r, after) → Kept id s m.now after.store

    same_store :
        (o : Outcome (Response × World fs)) → KeepsStore u fs system m config req w o → KeptBy o
    unfolding KeptBy
    same_store o keeps r after e = subst (Kept id s m.now) (sym (keeps r after e)) k

    unchanged : (x : Response) → KeptBy (done (x, w))
    unfolding KeptBy
    unchanged x r after e =
        let same : w ≡ after = cc in subst (λ (v : World fs). Kept id s m.now v.store) same k

    on_store-Kept :
        (p : Response × SessionStore)
        → Kept id s m.now p.1
        → KeptBy (on_store u fs system m config p w)
    unfolding KeptBy
    on_store-Kept p kept r after e =
        subst (Kept id s m.now) (on_store-done m config p w r after e).1 kept

    session_route-Kept : KeptBy (session_route u fs system m config req w)
    session_route-Kept = elim (page_of u fs system m config req w) [
      | login h e ↦ subst KeptBy (sym e) (
          on_store-Kept (handle_login m req w.store)
            (handle_login-Kept id s m req w.store k (others.other_login h)))
      | logout h e ↦ subst KeptBy (sym e) (
          on_store-Kept (handle_logout req w.store)
            (handle_logout-Kept id s m req w.store k (others.other_logout h)))
      | whoami h e ↦ subst KeptBy (sym e) (
          on_store-Kept (handle_whoami fs w.disk m req config w.store)
            (handle_whoami-Kept id s m req w.store k fs w.disk config))
      | other h e ↦
          subst KeptBy (sym e)
            (same_store _ (handle_with_route-KeepsStore u fs system m config req w))
    ]

    build_response-Kept : KeptBy (build_response u fs system m config req w)
    unfolding build_response
    build_response-Kept = elim (Option-cases (redirect_of config req)) [
      | inl stays ↦ rw (build_response, stays) session_route-Kept
      | inr (to, redirects) ↦ rw (build_response, redirects) (unchanged _)
    ]

  -- Requests of others leave the session as it was, until it is over.
  pub Others-Kept :
      (id : Text) (s : Session) {now : ℕ} {w : World fs} {later : ℕ} {after : World fs}
      → Kept id s now w.store
      → Others id now w later after
      → Kept id s later after.store
  unfolding KeptBy
  Others-Kept id s k nobody = k
  Others-Kept id s k (next {before} {mid} {after} m config req r earlier le theirs e) =
      build_response-Kept id s m config req mid
        (Kept-later id s before m.now mid.store le (Others-Kept id s k earlier)) theirs r after e
