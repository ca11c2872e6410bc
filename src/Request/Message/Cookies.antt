-- ===== src/Request/Message/Cookies.antt =====
-- What the server reads of the cookies that a client sends.
use localserver.Base.{
  ◌≡◌, refl, ap, ◌∙◌, true, Option, none, some, [], ◌∷◌, ◌++◌, ◌==◌, if◌then◌else◌, Bool-cases, inl,
  inr, all-append, Option-cases,
}
use localserver.Std.Text.{Text, chars, is_whitespace, split, text_eq}
use localserver.Std.Text.Position.{without}
use localserver.Std.Text.Trim.{none_match, trim-none}
use localserver.Std.Text.Split.{space, split-none, split-append, split_once-append}
use localserver.Std.Map
use localserver.Std.Map.{insert, get-insert}
use localserver.Std.Keys.{text_key}
use localserver.Request.Message.{Dict, Request, add_cookie, add_cookies, cookies, session_id}
use localserver.Request.Message.Format.{trim-space}

-- A name and a value without white space and semicolons; only the value may have an equals sign.
pub record IsCookie (c : Text × Text) : Type 0 where
  pub name_no_space : none_match is_whitespace c.0 ≡ true
  pub name_no_end : without b';' c.0 ≡ true
  pub name_no_equals : without b'=' c.0 ≡ true
  pub value_no_space : none_match is_whitespace c.1 ≡ true
  pub value_no_end : without b';' c.1 ≡ true

abbrev pub AllCookies : Dict → Type 0
AllCookies [] = Unit
AllCookies (c ∷ cs) = IsCookie c × AllCookies cs

abbrev cookie_text : Text × Text → Text
cookie_text c = c.0 ++ b'=' ∷ c.1

-- The value of the header, for a first cookie and others.
unfoldable pub cookie_line : Text × Text → Dict → Text
cookie_line c [] = cookie_text c
cookie_line c (d ∷ rest) = cookie_text c ++ b';' ∷ space ∷ cookie_line d rest

-- The last value that a name is given.
abbrev pub last_value : Text → Dict → Option Text
last_value name [] = none
last_value name ((k, v) ∷ rest) = elim (last_value name rest) [
  | some w ↦ some w
  | none ↦ if text_eq k name then some v else none
]

abbrev inserted : Dict → Dict → Dict
inserted d [] = d
inserted d ((k, v) ∷ rest) = inserted (insert d k v) rest

get-inserted :
    (d cs : Dict) (name : Text)
    → Map.get (inserted d cs) name
      ≡ (elim (last_value name cs) [ some w ↦ some w | none ↦ Map.get d name ])
get-inserted d [] name = refl
get-inserted d ((k, v) ∷ rest) name =
    get-inserted (insert d k v) rest name ∙ elim (Option-cases (last_value name rest)) [
      | inl e ↦
          rw (e, get-insert d k name v)
            (elim (Bool-cases (text_eq k name)) [
              | inl same ↦ rw same refl
              | inr other ↦ rw other refl
            ])
      | inr (w, e) ↦ rw e refl
    ]

or_none : (o : Option Text) → (elim o [ some w ↦ some w | none ↦ none ]) ≡ o
or_none none = refl
or_none (some w) = refl

module _ (c : Text × Text) (k : IsCookie c) where
  no_end : without b';' (cookie_text c) ≡ true
  no_end = all-append _ c.0 (b'=' ∷ c.1) k.name_no_end k.value_no_end

  add_cookie-plain : (d : Dict) → add_cookie d (cookie_text c) ≡ insert d c.0 c.1
  unfolding add_cookie is_whitespace
  add_cookie-plain d =
      let no_space : none_match is_whitespace (cookie_text c) ≡ true =
        all-append _ c.0 (b'=' ∷ c.1) k.name_no_space k.value_no_space in
      rw (
        trim-none (cookie_text c) no_space,
        split_once-append c.0 b'=' c.1 k.name_no_equals,
        add_cookie,
        trim-none c.0 k.name_no_space,
        trim-none c.1 k.value_no_space,
      )

  add_cookie-spaced : (d : Dict) → add_cookie d (space ∷ cookie_text c) ≡ insert d c.0 c.1
  unfolding add_cookie
  add_cookie-spaced d = rw (add_cookie, trim-space (cookie_text c)) (add_cookie-plain d)

-- The pieces between semicolons: all but the first begin with a space.
add_cookies-spaced :
    (d : Dict) (c : Text × Text) (cs : Dict)
    → AllCookies (c ∷ cs)
    → add_cookies d (split (λ x. x == b';') (space ∷ cookie_line c cs)) ≡ inserted d (c ∷ cs)
unfolding add_cookies cookie_line
add_cookies-spaced d c [] (k, ks) = rw (
  split-none (λ x. x == b';') (space ∷ cookie_text c) (no_end c k),
  add_cookies,
  add_cookie-spaced c k d,
)
add_cookies-spaced d c (e ∷ cs) (k, ks) =
    rw
      (
        split-append (λ x. x == b';') (space ∷ cookie_text c) b';' (space ∷ cookie_line e cs)
            (no_end c k) refl,
        add_cookies,
        add_cookie-spaced c k d,
      )
      (add_cookies-spaced (insert d c.0 c.1) e cs ks)

add_cookies-line :
    (d : Dict) (c : Text × Text) (cs : Dict)
    → AllCookies (c ∷ cs)
    → add_cookies d (split (λ x. x == b';') (cookie_line c cs)) ≡ inserted d (c ∷ cs)
unfolding add_cookies cookie_line
add_cookies-line d c [] (k, ks) =
    rw (
      split-none (λ x. x == b';') (cookie_text c) (no_end c k),
      add_cookies,
      add_cookie-plain c k d,
    )
add_cookies-line d c (e ∷ cs) (k, ks) =
    rw
      (
        split-append (λ x. x == b';') (cookie_text c) b';' (space ∷ cookie_line e cs) (no_end c k)
            refl,
        add_cookies,
        add_cookie-plain c k d,
      )
      (add_cookies-spaced (insert d c.0 c.1) e cs ks)

-- A client sends cookies, one at least, whose names and values have no white space and no
-- semicolon, and whose names no equals sign, as one header, with a semicolon and a space between
-- them: `cookies` has for each name the last value that was sent for it, and nothing for other
-- names. `session_id` is the last value sent for that name.
pub cookies-cookie_line :
    (req : Request) (c : Text × Text) (cs : Dict)
    → AllCookies (c ∷ cs)
    → Map.get req.headers (chars "cookie") ≡ some (cookie_line c cs)
    → ((name : Text) → Map.get (cookies req) name ≡ last_value name (c ∷ cs))
      × (session_id req ≡ last_value (chars "session_id") (c ∷ cs))
unfolding cookies session_id Map.get
cookies-cookie_line req c cs k sent =
    let read : cookies req ≡ inserted [] (c ∷ cs) =
      rw (cookies, sent) (add_cookies-line [] c cs k) in
    let values : (name : Text) → Map.get (cookies req) name ≡ last_value name (c ∷ cs) = λ name.
      ap (λ d. Map.get d name) read
      ∙ get-inserted [] (c ∷ cs) name
      ∙ or_none (last_value name (c ∷ cs)) in
    (values, values (chars "session_id"))
