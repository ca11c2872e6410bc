-- ===== src/Handler/Users/Flow.antt =====
-- A user logs in, is known, and logs out.
use mathlib.Core.Option
use localserver.Base.{
  ℕ, ◌-◌, ◌≤◌, ◌≡◌, refl, ap, ◌∙◌, true, Option, none, some, List, [], ◌∷◌, ◌++◌, arith, ltb, ◌==◌,
  if◌then◌else◌, all, &&_split,
}
use localserver.Std.Text.{Text, chars, text_eq_iff, text_eq_self, split_once, is_whitespace}
use localserver.Std.Text.Trim.{none_match, trim-none}
use localserver.Std.Text.Position.{without}
use localserver.Std.Text.Split.{split-none, split_once-append}
use localserver.Std.Number.{is_hex}
use localserver.Std.Map
use localserver.Std.Map.{insert, get-insert, get-remove}
use localserver.Std.Keys.{text_key}
use localserver.Config.Data.{ServerConfig}
use localserver.Request.Message.{Request, cookies, add_cookies, add_cookie, session_id}
use localserver.Response.{forbidden, Response, new, set_cookie}
use localserver.Session.{
  SessionStore, lifetime, create, set, get_mut, read_field, get_value, destroy,
}
use localserver.Session.Identifier.{generate_id, generate_id-hex}
use localserver.Session.Lifetime.{get_value-set-begun}
use localserver.Handler.World.{FileSystem, Moment}
use localserver.Handler.Files.{error_response}
use localserver.Handler.Users.{
  param, form_params, is_admin, page, handle_login, handle_logout, current_user, handle_whoami,
}

-- What a client sends back of a cookie: its name and value, without the attributes.
abbrev pub cookie_pair : Text → Text
cookie_pair cookie = Option.get_or (Option.map (λ p. p.0) (split_once b';' cookie)) cookie

-- A client that sends back the first cookie of a response.
abbrev pub SendsBack : Response → Request → Type 0
SendsBack r req =
    (cookie : Text) × (rest : List Text) × (r.cookies ≡ cookie ∷ rest)
    × (Map.get req.headers (chars "cookie") ≡ some (cookie_pair cookie))

hex-plain :
    (s : Text)
    → all is_hex s ≡ true
    → (none_match is_whitespace s ≡ true)
      × (none_match (λ c. c == b';') s ≡ true)
      × (without b';' s ≡ true)
unfolding is_whitespace
hex-plain [] h = (refl, refl, refl)
hex-plain (c ∷ s) h = ground (arith, hex-plain s)

add_cookie-session_id :
    (id : Text)
    → all is_hex id ≡ true
    → add_cookie [] (chars "session_id=" ++ id) ≡ (chars "session_id", id) ∷ []
unfolding add_cookie is_whitespace insert
add_cookie-session_id id hex =
    let (no_space, one_piece, no_end) = hex-plain id hex in
    rw (
      trim-none (chars "session_id=" ++ id) no_space,
      split_once-append (chars "session_id") b'=' id refl,
      add_cookie,
      trim-none (chars "session_id") refl,
      trim-none id no_space,
    )

session_id-cookie :
    (id : Text) (req : Request)
    → all is_hex id ≡ true
    → Map.get req.headers (chars "cookie") ≡ some (chars "session_id=" ++ id)
    → session_id req ≡ some id
unfolding session_id cookies add_cookies
session_id-cookie id req hex sent =
    let (no_space, one_piece, no_end) = hex-plain id hex in
    let read : cookies req ≡ (chars "session_id", id) ∷ [] =
      rw (sent, cookies)
        (ap (add_cookies []) (split-none (λ c. c == b';') (chars "session_id=" ++ id) one_piece)
          ∙ add_cookie-session_id id hex) in
    ap (λ c. Map.get c (chars "session_id")) read
    ∙ unfold Map.get in rw (text_eq_self (chars "session_id"))

abbrev pub login_id : Moment → Text
login_id m = generate_id m.nanos m.pid

module _ (m : Moment) (req : Request) (st : SessionStore) (admin : is_admin req ≡ true) where
  pub login_store :
      (handle_login m req st).1
      ≡ (set m.now
          (login_id m)
          (chars "username")
          (chars "admin")
          (create m.begun (login_id m) st)).1
  unfolding handle_login is_admin
  login_store =
      let user = param (form_params req) (chars "username") in
      let is_user : user ≡ chars "admin" =
        (text_eq_iff user (chars "admin")).0 (&&_split _ _ admin).0 in
      rw admin (rw is_user refl)

  -- The client sends back the id that the login made.
  pub login_cookie :
      (back : Request)
      → SendsBack (handle_login m req st).0 back
      → session_id back ≡ some (login_id m)
  unfolding handle_login set_cookie new
  login_cookie back (cookie, rest, given, sent) =
      let hex = (generate_id-hex m.nanos m.pid).0 in
      let (no_space, one_piece, no_end) = hex-plain (generate_id m.nanos m.pid) hex in
      let pair : Text = chars "session_id=" ++ generate_id m.nanos m.pid in
      let is_cookie : pair ++ chars "; HttpOnly; SameSite=Strict" ≡ cookie =
        cc (rw admin at given) in
      let is_pair : cookie_pair cookie ≡ pair =
        rw (← is_cookie)
          (rw (split_once-append pair b';' (chars " HttpOnly; SameSite=Strict") no_end) refl) in
      session_id-cookie (generate_id m.nanos m.pid) back hex (sent ∙ ap some is_pair)

-- The page for a user, or for none.
unfoldable pub user_page : (fs : FileSystem) → fs.Disk → ServerConfig → Option Text → Response
user_page fs disk config none = error_response fs disk forbidden config
user_page fs disk config (some name) = page (chars "You are: " ++ name)

pub whoami-session :
    (fs : FileSystem) (disk : fs.Disk) (config : ServerConfig) (m : Moment) (req : Request)
    (st : SessionStore) (id : Text)
    → session_id req ≡ some id
    → (handle_whoami fs disk m req config st).0
      ≡ user_page fs disk config (get_value m.now id (chars "username") st).0
unfolding handle_whoami current_user user_page
whoami-session fs disk config m req st id known =
    rw (handle_whoami, current_user, known) (ground arith)

-- Nothing is read of a session that was destroyed.
get_value-destroy :
    (now : ℕ) (id key : Text) (st : SessionStore) → (get_value now id key (destroy id st)).0 ≡ none
unfolding get_value get_mut destroy read_field
get_value-destroy now id key st =
    rw (get_value, get_mut, get-remove st.sessions id id, text_eq_self id)

-- A user who logs in is known by the session that the client sends back, until an hour after it
-- began, and no longer; after a logout with it the user is not known.
pub handle_login-whoami :
    (fs : FileSystem) (disk : fs.Disk) (config : ServerConfig) (m later : Moment)
    (req back : Request) (st : SessionStore)
    → is_admin req ≡ true
    → m.now - m.begun ≤ lifetime
    → SendsBack (handle_login m req st).0 back
    → ((handle_whoami fs disk later back config (handle_login m req st).1).0 ≡ (
        if ltb lifetime (later.now - m.begun)
        then error_response fs disk forbidden config
        else page (chars "You are: admin")))
      × ((handle_whoami fs disk later back config
            (handle_logout back (handle_login m req st).1).1).0
          ≡ error_response fs disk forbidden config)
unfolding handle_logout user_page
handle_login-whoami fs disk config m later req back st admin soon sends =
    let known = login_cookie m req st admin back sends in
    let stored = login_store m req st admin in
    let after = (handle_login m req st).1 in
    (
      whoami-session fs disk config later back after (login_id m) known
          ∙ rw stored (
              rw
                (get_value-set-begun m.begun m.now later.now (login_id m) (chars "username")
                  (chars "admin") st soon)
                (ground arith)),
      rw (known, handle_logout)
          (whoami-session fs disk config later back (destroy (login_id m) after) (login_id m) known
            ∙ rw (get_value-destroy later.now (login_id m) (chars "username") after) refl),
    )
