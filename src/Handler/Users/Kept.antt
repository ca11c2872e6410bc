-- ===== src/Handler/Users/Kept.antt =====
-- What the user handlers leave of a session that is another client's.
use localserver.Base.{◌≡◌, ◌≢◌, ap, ◌∙◌, true, false, some, Option-cases, Bool-cases, inl, inr}
use localserver.Std.Text.{Text, chars, text_eq, text_eq_iff}
use localserver.Config.Data.{ServerConfig}
use localserver.Request.Message.{Request, session_id}
use localserver.Session.{Session, SessionStore}
use localserver.Session.Kept.{Kept, create-Kept, set-Kept, destroy-Kept, get_value-Kept}
use localserver.Handler.World.{FileSystem, Moment}
use localserver.Handler.Users.{
  is_admin, param, form_params, handle_login, handle_logout, current_user, handle_whoami,
}
use localserver.Handler.Users.Flow.{login_id}

module _ (id : Text) (s : Session) (m : Moment) (req : Request) (st : SessionStore)
    (k : Kept id s m.now st) where
  pub handle_login-Kept :
      (is_admin req ≡ true → text_eq (login_id m) id ≡ false)
      → Kept id s m.now (handle_login m req st).1
  unfolding handle_login
  handle_login-Kept other = elim (Bool-cases (is_admin req)) [
    | inr refused ↦ rw (handle_login, refused) k
    | inl admin ↦
        rw (handle_login, admin)
          (set-Kept id s m.now (login_id m) (chars "username")
            (param (form_params req) (chars "username")) _ (other admin)
            (create-Kept id s m.now st k (login_id m) (other admin) m.begun))
  ]

  pub handle_logout-Kept : session_id req ≢ some id → Kept id s m.now (handle_logout req st).1
  unfolding handle_logout
  handle_logout-Kept other = elim (Option-cases (session_id req)) [
    | inl e ↦ rw (handle_logout, e) k
    | inr (j, e) ↦ elim (Bool-cases (text_eq j id)) [
      | inl same ↦ absurd (other (e ∙ ap some ((text_eq_iff j id).0 same)))
      | inr differs ↦ rw (handle_logout, e) (destroy-Kept id s m.now st k j differs)
    ]
  ]

  pub handle_whoami-Kept :
      (fs : FileSystem) (disk : fs.Disk) (config : ServerConfig)
      → Kept id s m.now (handle_whoami fs disk m req config st).1
  unfolding handle_whoami current_user
  handle_whoami-Kept fs disk config = elim (Option-cases (session_id req)) [
    | inl e ↦ rw (handle_whoami, current_user, e) k
    | inr (j, e) ↦
        rw (handle_whoami, current_user, e) (get_value-Kept id s m.now st k j (chars "username"))
  ]
