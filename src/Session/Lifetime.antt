-- ===== src/Session/Lifetime.antt =====
-- How long a session lasts.
use localserver.Base.{
  ℕ, ◌-◌, ◌≤◌, ltb, ◌≡◌, ap, ◌∙◌, true, false, none, some, [], arith, if◌then◌else◌, Bool-cases,
  inl, inr,
}
use localserver.Std.Text.{Text, text_eq_self}
use localserver.Std.Map
use localserver.Std.Map.{insert, remove, retain, get-insert}
use localserver.Std.Keys.{text_key}
use localserver.Session.{
  Session, new_session, is_expired, lifetime, SessionStore, create, get_mut, set, get_value,
  write_field, read_field,
}

module _ (id key : Text) (st : SessionStore) (s : Session)
    (there : Map.get st.sessions id ≡ some s) where
  get_mut-there : (now : ℕ) → is_expired now s ≡ false → get_mut now id st ≡ (some s, st)
  unfolding get_mut
  get_mut-there now fresh = rw (there, get_mut, fresh)

  get_mut-gone :
      (now : ℕ)
      → is_expired now s ≡ true
      → get_mut now id st ≡ (none, record { sessions = remove st.sessions id })
  unfolding get_mut
  get_mut-gone now old = rw (there, get_mut, old)

  set-live :
      (now : ℕ) (value : Text)
      → is_expired now s ≡ false
      → Map.get (set now id key value st).1.sessions id
        ≡ some (record s { fields = insert s.fields key value })
  unfolding set write_field
  set-live now value fresh =
      let written : Session = record s { fields = insert s.fields key value } in
      rw (get_mut-there now fresh) (get-insert st.sessions id id written ∙ rw (text_eq_self id))

  get_value-there :
      (now : ℕ)
      → (get_value now id key st).0 ≡ (if is_expired now s then none else Map.get s.fields key)
  unfolding get_value read_field
  get_value-there now = elim (Bool-cases (is_expired now s)) [
    | inl old ↦ rw (get_mut-gone now old, old)
    | inr fresh ↦ rw (get_mut-there now fresh, fresh)
  ]

get-create :
    (now : ℕ) (id : Text) (st : SessionStore)
    → Map.get (create now id st).sessions id ≡ some (new_session now)
unfolding create
get-create now id st = get-insert st.sessions id id (new_session now) ∙ rw (text_eq_self id)

-- A session with one field.
abbrev pub session_with : ℕ → Text → Text → Session
session_with begun key value = record { fields = insert [] key value; created_at = begun }

-- A field that is set before the session is over.
pub set-begun :
    (begun now : ℕ) (id key value : Text) (st : SessionStore)
    → now - begun ≤ lifetime
    → Map.get (set now id key value (create begun id st)).1.sessions id
      ≡ some (session_with begun key value)
unfolding is_expired new_session
set-begun begun now id key value st soon =
    set-live id key (create begun id st) (new_session begun) (get-create begun id st) now value
      (ground arith)

pub get_value-set-begun :
    (begun now later : ℕ) (id key value : Text) (st : SessionStore)
    → now - begun ≤ lifetime
    → (get_value later id key (set now id key value (create begun id st)).1).0
      ≡ (if ltb lifetime (later - begun) then none else some value)
unfolding is_expired
get_value-set-begun begun now later id key value st soon =
    get_value-there id key (set now id key value (create begun id st)).1
      (session_with begun key value) (set-begun begun now id key value st soon) later
    ∙ ap (λ v. if ltb lifetime (later - begun) then none else v)
        (get-insert [] key key value ∙ rw (text_eq_self key))

-- A field that is set in a new session is read until an hour after the session began, and not
-- a moment later.
get_value-set-create :
    (now later : ℕ) (id key value : Text) (st : SessionStore)
    → (get_value later id key (set now id key value (create now id st)).1).0
      ≡ (if ltb lifetime (later - now) then none else some value)
get_value-set-create now later id key value st =
    get_value-set-begun now now later id key value st (omega arith)
