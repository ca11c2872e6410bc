-- ===== src/Session/Kept.antt =====
-- What becomes of one session while others are used.
use localserver.Base.{
  ℕ, ◌≤◌, ◌≡◌, refl, sym, ap, ◌∙◌, true, false, Option, none, some, arith, if◌then◌else◌,
  Option-cases, Bool-cases, inl, inr,
}
use localserver.Std.Text.{Text, text_eq, text_eq_iff}
use localserver.Std.Map
use localserver.Std.Map.{insert, remove, get-insert, get-remove}
use localserver.Std.Keys.{text_key}
use localserver.Session.{
  Session, new_session, is_expired, SessionStore, create, get_mut, set, get_value, destroy,
  write_field, read_field,
}

read_field-store : (key : Text) (p : Option Session × SessionStore) → (read_field key p).1 ≡ p.1
unfolding read_field
read_field-store key (none, st) = refl
read_field-store key (some x, st) = refl

module _ (id : Text) (s : Session) where
  -- The session is in the store as it was, or it is over and has been evicted.
  pub data Kept (now : ℕ) (st : SessionStore) : Type 0 where
    there : Map.get st.sessions id ≡ some s → Kept now st
    evicted : Map.get st.sessions id ≡ none → is_expired now s ≡ true → Kept now st

  same_entry :
      (now : ℕ) (st after : SessionStore)
      → Map.get after.sessions id ≡ Map.get st.sessions id
      → Kept now st
      → Kept now after
  same_entry now st after e (there h) = there (e ∙ h)
  same_entry now st after e (evicted h old) = evicted (e ∙ h) old

  pub Kept-later : (now later : ℕ) (st : SessionStore) → now ≤ later → Kept now st → Kept later st
  unfolding is_expired
  Kept-later now later st le (there h) = there h
  Kept-later now later st le (evicted h old) = evicted h (ground arith)

  module _ (now : ℕ) (st : SessionStore) (k : Kept now st) (j : Text) where
    evict :
        (x : Session)
        → Map.get st.sessions j ≡ some x
        → is_expired now x ≡ true
        → Kept now (record { sessions = remove st.sessions j })
    evict x found old = elim (Bool-cases (text_eq j id)) [
      | inr other ↦ same_entry now st _ (get-remove st.sessions j id ∙ rw other refl) k
      | inl same ↦
          let gone : Map.get (remove st.sessions j) id ≡ none =
            get-remove st.sessions j id ∙ rw same refl in
          let same_id = (text_eq_iff j id).0 same in
          evicted gone (elim k [
            | evicted h was ↦ was
            | there h ↦ let is_s : x ≡ s = cc in ap (is_expired now) (sym is_s) ∙ old
          ])
    ]

    pub get_mut-Kept : Kept now (get_mut now j st).1
    unfolding get_mut
    get_mut-Kept = elim (Option-cases (Map.get st.sessions j)) [
      | inl e ↦ rw (get_mut, e) k
      | inr (x, e) ↦ elim (Bool-cases (is_expired now x)) [
        | inl old ↦ rw (get_mut, e, old) (evict x e old)
        | inr fresh ↦ rw (get_mut, e, fresh) k
      ]
    ]

    -- Reading a field, of this session or another.
    pub get_value-Kept : (key : Text) → Kept now (get_value now j key st).1
    unfolding get_value read_field
    get_value-Kept key = rw (get_value, read_field-store key (get_mut now j st)) get_mut-Kept

    module _ (other : text_eq j id ≡ false) where
      pub create-Kept : (begun : ℕ) → Kept now (create begun j st)
      unfolding create
      create-Kept begun =
          same_entry now st _ (get-insert st.sessions j id (new_session begun) ∙ rw other refl) k

      pub destroy-Kept : Kept now (destroy j st)
      unfolding destroy
      destroy-Kept = same_entry now st _ (get-remove st.sessions j id ∙ rw other refl) k

  write_field-Kept :
      (now : ℕ) (j key value : Text) (p : Option Session × SessionStore)
      → text_eq j id ≡ false
      → Kept now p.1
      → Kept now (write_field j key value p).1
  unfolding write_field
  write_field-Kept now j key value (none, st) other k = k
  write_field-Kept now j key value (some x, st) other k =
      same_entry now st _ (get-insert st.sessions j id _ ∙ rw other refl) k

  pub set-Kept :
      (now : ℕ) (j key value : Text) (st : SessionStore)
      → text_eq j id ≡ false
      → Kept now st
      → Kept now (set now j key value st).1
  unfolding set
  set-Kept now j key value st other k =
      write_field-Kept now j key value (get_mut now j st) other (get_mut-Kept now st k j)

  -- What is read of the session, until it is over and when it is.
  pub get_value-of :
      (now : ℕ) (st : SessionStore) (key : Text)
      → Kept now st
      → (get_value now id key st).0 ≡ (if is_expired now s then none else Map.get s.fields key)
  unfolding get_value get_mut read_field
  get_value-of now st key (evicted h old) = rw (get_value, get_mut, h, old) refl
  get_value-of now st key (there h) = elim (Bool-cases (is_expired now s)) [
    | inl old ↦ rw (get_value, get_mut, h, old) refl
    | inr fresh ↦ rw (get_value, get_mut, h, fresh) refl
  ]
