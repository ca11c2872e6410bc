-- ===== src/Session/View.antt =====
-- The session store refines a dictionary of live sessions.
use mathlib.Core.Option
use localserver.Base.{
  ℕ, ◌≤◌, ◌≡◌, ◌≢◌, refl, sym, ap, ◌∙◌, Bool, true, false, not, Option, none, some, List, [], arith,
  if◌then◌else◌, Bool-cases, Option-cases, inl, inr,
}
use localserver.Std.Text.{Text, text_eq, text_eq_iff}
use localserver.Std.Map
use localserver.Std.Map.{insert, remove, retain, get-insert, get-remove}
use localserver.Std.Map.Distinct.{Distinct, get-retain}
use localserver.Std.Keys.{text_key}
use localserver.Session.{
  Session, new_session, is_expired, SessionStore, create, get_mut, set, get_value, destroy, cleanup,
  write_field, read_field,
}

-- The fields of a session that is there and has not expired.
abbrev live_fields : ℕ → Option Session → Option (List (Text × Text))
live_fields now none = none
live_fields now (some s) = if is_expired now s then none else some s.fields

-- What the store holds for an id at a time.
abbrev view : ℕ → SessionStore → Text → Option (List (Text × Text))
view now st id = live_fields now (Map.get st.sessions id)

abbrev is_some {ℓ} : {A : Type ℓ} → Option A → Bool
is_some none = false
is_some (some a) = true

-- The abstract operations, on a dictionary of live sessions.
abbrev with_field : Text → Text → Option (List (Text × Text)) → Option (List (Text × Text))
with_field key value none = none
with_field key value (some fields) = some (insert fields key value)

abbrev field : Text → Option (List (Text × Text)) → Option Text
field key none = none
field key (some fields) = Map.get fields key

module _ (now : ℕ) (id : Text) (st : SessionStore) where
  new-live : live_fields now (some (new_session now)) ≡ some []
  unfolding new_session is_expired
  new-live = ground arith

  view-create :
      (j : Text) → view now (create now id st) j ≡ (if text_eq id j then some [] else view now st j)
  unfolding create
  view-create j =
      ap (live_fields now) (get-insert st.sessions id j (new_session now))
      ∙ elim (Bool-cases (text_eq id j)) [ inl e ↦ rw e new-live | inr e ↦ rw e ]

  view-remove :
      (j : Text)
      → live_fields now (Map.get (remove st.sessions id) j)
        ≡ (if text_eq id j then none else view now st j)
  view-remove j =
      ap (live_fields now) (get-remove st.sessions id j)
      ∙ elim (Bool-cases (text_eq id j)) [ inl e ↦ rw e | inr e ↦ rw e ]

  view-destroy :
      (j : Text) → view now (destroy id st) j ≡ (if text_eq id j then none else view now st j)
  unfolding destroy
  view-destroy j = view-remove j

  -- The three ways of `get_mut`.
  data Found : Type 0 where
    absent : Map.get st.sessions id ≡ none → get_mut now id st ≡ (none, st) → Found
    expired :
        view now st id ≡ none
        → get_mut now id st ≡ (none, record { sessions = remove st.sessions id })
        → Found
    live :
        (s : Session)
        → Map.get st.sessions id ≡ some s
        → is_expired now s ≡ false
        → get_mut now id st ≡ (some s, st)
        → Found

  found : Found
  unfolding get_mut
  found = elim (Option-cases (Map.get st.sessions id)) [
    | inl e ↦ absent e (rw (e, get_mut))
    | inr (s, e) ↦ elim (Bool-cases (is_expired now s)) [
      | inl old ↦ expired (rw (e, old)) (rw (e, old, get_mut))
      | inr fresh ↦ live s e fresh (rw (e, fresh, get_mut))
    ]
  ]

  -- A dead session may be taken for none.
  unchanged_if :
      (j : Text) (d : Option (List (Text × Text)))
      → d ≡ none
      → view now st id ≡ none
      → (if text_eq id j then d else view now st j) ≡ view now st j
  unchanged_if j d de e = elim (Bool-cases (text_eq id j)) [
    | inl same ↦ rw (same, de) (sym (ap (view now st) (sym ((text_eq_iff id j).0 same)) ∙ e))
    | inr other ↦ rw other
  ]

  view-insert :
      (s : Session)
      → is_expired now s ≡ false
      → (fields : List (Text × Text)) (j : Text)
      → live_fields now (Map.get (insert st.sessions id (record s { fields = fields })) j)
        ≡ (if text_eq id j then some fields else view now st j)
  view-insert s fresh fields j =
      let still : is_expired now (record s { fields = fields }) ≡ false =
        unfold is_expired in fresh in
      ap (live_fields now) (get-insert st.sessions id j (record s { fields = fields }))
      ∙ elim (Bool-cases (text_eq id j)) [ inl e ↦ rw (e, still) | inr e ↦ rw e ]

  -- Looking a session up changes no live session, and gives the live one.
  view-get_mut :
      (j : Text)
      → (view now (get_mut now id st).1 j ≡ view now st j)
        × (live_fields now (get_mut now id st).0 ≡ view now st id)
  view-get_mut j = elim found [
    | absent e g ↦ rw (g, e) (refl, refl)
    | expired e g ↦ rw (g, e) (view-remove j ∙ unchanged_if j none refl e, refl)
    | live s e fresh g ↦ rw g (refl, ap (live_fields now) (sym e))
  ]

  -- Setting a field writes it to the live session and to nothing else; the answer says whether
  -- there was one.
  view-set :
      (key value j : Text)
      → (view now (set now id key value st).1 j
          ≡ (if text_eq id j then with_field key value (view now st id) else view now st j))
        × ((set now id key value st).0 ≡ is_some (view now st id))
  unfolding set write_field
  view-set key value j = elim found [
    | absent e g ↦ rw (g, e) (sym (unchanged_if j none refl (ap (live_fields now) e)), refl)
    | expired e g ↦ rw (g, e) (view-remove j, refl)
    | live s e fresh g ↦ rw (g, e, fresh) (view-insert s fresh (insert s.fields key value) j, refl)
  ]

  -- Reading a field reads it off the live session, and changes no live session.
  view-get_value :
      (key j : Text)
      → ((get_value now id key st).0 ≡ field key (view now st id))
        × (view now (get_value now id key st).1 j ≡ view now st j)
  unfolding get_value read_field
  view-get_value key j = elim found [
    | absent e g ↦ rw (g, e) (refl, refl)
    | expired e g ↦ rw (g, e) (refl, view-remove j ∙ unchanged_if j none refl e)
    | live s e fresh g ↦ rw (g, e, fresh) (refl, refl)
  ]

-- What has expired stays so.
is_expired_mono :
    (now later : ℕ) (s : Session)
    → now ≤ later
    → is_expired now s ≡ true
    → is_expired later s ≡ true
unfolding is_expired
is_expired_mono now later s h e = ground arith

abbrev survivor : ℕ → Session → Option Session
survivor now s = if not (is_expired now s) then some s else none

survivor-live :
    (now later : ℕ) (o : Option Session)
    → now ≤ later
    → (live_fields later (Option.bind o (survivor now)) ≡ live_fields later o)
      × (Option.map (is_expired now) (Option.bind o (survivor now)) ≢ some true)
unfolding Option.bind
survivor-live now later none h = (refl, λ e. cc e)
survivor-live now later (some s) h = elim (Bool-cases (is_expired now s)) [
  | inl old ↦ rw (old, is_expired_mono now later s h old) (refl, λ e. cc e)
  | inr fresh ↦ rw fresh (refl, λ e. cc (fresh, e))
]

module _ (now : ℕ) (st : SessionStore) (distinct : Distinct st.sessions) where
  -- Evicting the expired sessions changes no live one, now or later, and leaves no expired one.
  view-cleanup :
      (later : ℕ) (j : Text)
      → now ≤ later
      → (view later (cleanup now st) j ≡ view later st j)
        × (Option.map (is_expired now) (Map.get (cleanup now st).sessions j) ≢ some true)
  unfolding cleanup
  view-cleanup later j h =
      rw (get-retain (λ s. not (is_expired now s)) st.sessions j distinct)
        (survivor-live now later (Map.get st.sessions j) h)
