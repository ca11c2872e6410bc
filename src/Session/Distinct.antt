-- ===== src/Session/Distinct.antt =====
-- No id stands twice in the store.
use localserver.Base.{ℕ, not, Option, none, some, Bool-cases, Option-cases, inl, inr}
use localserver.Std.Text.{Text}
use localserver.Std.Map
use localserver.Std.Map.{insert, remove, retain, get-insert}
use localserver.Std.Map.Distinct.{Distinct, insert-Distinct, remove-Distinct, retain-Distinct}
use localserver.Std.Keys.{text_key}
use localserver.Session.{
  Session, new_session, is_expired, SessionStore, create, get_mut, set, get_value, destroy, cleanup,
  write_field, read_field,
}

abbrev pub IsStore : SessionStore → Type 0
IsStore st = Distinct st.sessions

module _ (now : ℕ) (id key value : Text) (st : SessionStore) (d : IsStore st) where
  get_mut-IsStore : IsStore (get_mut now id st).1
  unfolding get_mut
  get_mut-IsStore = elim (Option-cases (Map.get st.sessions id)) [
    | inl e ↦ rw (e, get_mut) d
    | inr (s, e) ↦ elim (Bool-cases (is_expired now s)) [
      | inl old ↦ rw (e, get_mut, old) (remove-Distinct st.sessions id d)
      | inr fresh ↦ rw (e, get_mut, fresh) d
    ]
  ]

  write_field-IsStore :
      (p : Option Session × SessionStore) → IsStore p.1 → IsStore (write_field id key value p).1
  unfolding write_field
  write_field-IsStore (none, s) k = k
  write_field-IsStore (some x, s) k =
      insert-Distinct s.sessions id (record x { fields = insert x.fields key value }) k

  read_field-IsStore :
      (p : Option Session × SessionStore) → IsStore p.1 → IsStore (read_field key p).1
  unfolding read_field
  read_field-IsStore (none, s) k = k
  read_field-IsStore (some x, s) k = k

  -- Every operation keeps the ids distinct.
  pub operations-IsStore :
      IsStore (create now id st)
      × IsStore (get_mut now id st).1
      × IsStore (set now id key value st).1
      × IsStore (get_value now id key st).1
      × IsStore (destroy id st)
      × IsStore (cleanup now st)
  unfolding create destroy cleanup set get_value
  operations-IsStore = (
    insert-Distinct st.sessions id (new_session now) d,
    get_mut-IsStore,
    write_field-IsStore (get_mut now id st) get_mut-IsStore,
    read_field-IsStore (get_mut now id st) get_mut-IsStore,
    remove-Distinct st.sessions id d,
    retain-Distinct (λ s. not (is_expired now s)) st.sessions d,
  )
