-- ===== src/Handler/Build/Answers.antt =====
-- Every request is answered, and what the answer may change.
use mathlib.Core.Option
use mathlib.Core.Path.{subst}
use localserver.Base.{
  ◌≡◌, refl, sym, Bool, true, false, ◌∷◌, ◌++◌, some, Option-cases, Bool-cases, inl, inr, arith,
  Outcome, done,
}
use localserver.Std.Text.{Bytes, Unicode}
use localserver.Config.Data.{Location, ServerConfig}
use localserver.Request.Message.{Method, Request}
use localserver.Response.{Response}
use localserver.Cgi.Run.{Processes, Command, Child}
use localserver.Cgi.Run.Timeout.{Cooperates, run-responds}
use localserver.Session.{SessionStore}
use localserver.Handler.Route.{match_location, is_method_allowed, strip_location_prefix}
use localserver.Handler.World.{FileSystem, Moment, World}
use localserver.Handler.Files.{handle_post, handle_delete}
use localserver.Handler.Users.{handle_login, handle_logout, handle_whoami}
use localserver.Handler.Build.Pages.{is_session_page, page_of, login, logout, whoami, other}
use localserver.Handler.Build.{
  on_disk, on_store, by_method, script_for, handle_at, handle_with_route, session_route,
  build_response,
}

-- A method by which files may be written or removed.
abbrev pub may_write : Method → Bool
may_write Method.post = true
may_write Method.delete = true
may_write Method.get = false
may_write (Method.unknown word) = false

-- Every script that is started takes the body that it is offered and does not leave its output open
-- to others when it ends, and each poll of it comes ten milliseconds after the one before, or later.
abbrev pub AllCooperate : Processes → Type 0
AllCooperate system =
    (command : Command) (input : Bytes) (child : Child)
    → system.spawn command input ≡ some child
    → Cooperates input child

-- An answer, which changes the disk only if files may be written and the sessions only if the page
-- looks at them.
abbrev pub Answers : (fs : FileSystem) → Request → World fs → Outcome (Response × World fs) → Type 0
Answers fs req w o =
    (r : Response) × (after : World fs) × (o ≡ done (r, after))
    × (may_write req.method ≡ false → after.disk ≡ w.disk)
    × (is_session_page req ≡ false → after.store ≡ w.store)

module _ (u : Unicode) (fs : FileSystem) (system : Processes) (m : Moment) (config : ServerConfig)
    (cooperate : AllCooperate system) (req : Request) (w : World fs) where
  -- An answer that changes nothing.
  unchanged : (r : Response) → Answers fs req w (done (r, w))
  unchanged r = (r, w, refl, λ _. refl, λ _. refl)

  by_method-Answers :
      (method : Method) (loc : Location)
      → req.method ≡ method
      → Answers fs req w (by_method u fs system m config method req loc w)
  unfolding by_method on_disk
  by_method-Answers Method.get loc e = unchanged _
  by_method-Answers Method.post loc e =
      let (r, disk) = handle_post fs w.disk req loc.root config in
      (r, record w { disk = disk }, refl, λ h. absurd (cc (rw e at h)), λ _. refl)
  by_method-Answers Method.delete loc e =
      let (r, disk) = handle_delete fs w.disk req loc.root config in
      (r, record w { disk = disk }, refl, λ h. absurd (cc (rw e at h)), λ _. refl)
  by_method-Answers (Method.unknown word) loc e = unchanged _

  handle_at-Answers : (loc : Location) → Answers fs req w (handle_at u fs system m config req loc w)
  unfolding handle_at
  handle_at-Answers loc = elim (Bool-cases (is_method_allowed req.method loc)) [
    | inr refused ↦ rw (handle_at, refused) (unchanged _)
    | inl allowed ↦ elim (Option-cases (script_for u fs system m config req.method req loc)) [
      | inl no_script ↦ rw (handle_at, allowed, no_script) (by_method-Answers req.method loc refl)
      | inr (cgi, script) ↦
          let path = loc.root ++ b'/' ∷ strip_location_prefix req.path loc.path in
          let (r, ran) =
            run-responds u system cgi.interpreter path req
              (λ child started. cooperate _ req.body child started) in
          rw (handle_at, allowed, script, ran) (unchanged r)
    ]
  ]

  pub handle_with_route-Answers : Answers fs req w (handle_with_route u fs system m config req w)
  unfolding handle_with_route
  handle_with_route-Answers = elim (Option-cases (match_location req.path config)) [
    | inl nowhere ↦ rw (handle_with_route, nowhere) (unchanged _)
    | inr (loc, found) ↦ rw (handle_with_route, found) (handle_at-Answers loc)
  ]

  -- An answer of a page that looks at sessions.
  on_page :
      (p : Response × SessionStore)
      → is_session_page req ≡ true
      → Answers fs req w (on_store u fs system m config p w)
  unfolding on_store
  on_page (r, store) page =
      (r, record w { store = store }, refl, λ _. refl, λ h. absurd (cc (page, h)))

  session_route-Answers : Answers fs req w (session_route u fs system m config req w)
  session_route-Answers = elim (page_of u fs system m config req w) [
    | login h e ↦
        subst (Answers fs req w) (sym e) (on_page (handle_login m req w.store) (ground arith))
    | logout h e ↦
        subst (Answers fs req w) (sym e) (on_page (handle_logout req w.store) (ground arith))
    | whoami h e ↦
        subst (Answers fs req w) (sym e)
          (on_page (handle_whoami fs w.disk m req config w.store) (ground arith))
    | other h e ↦ subst (Answers fs req w) (sym e) handle_with_route-Answers
  ]

  -- If every script that is started takes the body that it is offered and leaves its output open to
  -- nobody else when it ends, each poll of it comes at least ten milliseconds after the one before,
  -- and the system's clock is not before 1970, every request is answered, with no panic; the disk
  -- changes only for POST and DELETE, and the sessions only for a POST of /login or /logout and for
  -- /whoami. What scripts themselves do to the disk is not counted.
  pub build_response-Answers : Answers fs req w (build_response u fs system m config req w)
  unfolding build_response
  build_response-Answers =
      elim (Option-cases
        (Option.bind (match_location req.path config) (λ (l : Location). l.redirect))) [
          | inl stays ↦ rw (build_response, stays) session_route-Answers
          | inr (to, redirects) ↦ rw (build_response, redirects) (unchanged _)
        ]
