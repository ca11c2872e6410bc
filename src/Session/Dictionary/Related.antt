-- ===== src/Session/Dictionary/Related.antt =====
-- A store and a dictionary that hold the same sessions, but for those that have expired.
use mathlib.Core.Path.{subst}
use localserver.Base.{
  ℕ, ◌≤◌, ◌≡◌, refl, true, false, Option, none, some, arith, if◌then◌else◌, Bool-cases, inl, inr,
}
use localserver.Std.Text.{Text, text_eq, text_eq_iff}
use localserver.Std.Map
use localserver.Std.Map.{insert, remove, retain, get-insert, get-remove}
use localserver.Std.Keys.{text_key}
use localserver.Session.{Session, is_expired, SessionStore, get_mut}
use localserver.Session.Dictionary.{Life, Dictionary, is_over, if_live, update}

-- An entry of the store and one of the dictionary, from this time on.
pub data Agrees (now : ℕ) (s : Option Session) (o : Option Life) : Type 0 where
  both :
      (x : Session) (y : Life)
      → s ≡ some x
      → o ≡ some y
      → x.created_at ≡ y.begun
      → ((key : Text) → Map.get x.fields key ≡ y.value key)
      → Agrees now s o
  absent : s ≡ none → o ≡ none → Agrees now s o
  evicted : (y : Life) → s ≡ none → o ≡ some y → is_over now y ≡ true → Agrees now s o

pub record Related (now : ℕ) (st : SessionStore) (d : Dictionary) : Type 0 where
  pub agrees : (id : Text) → Agrees now (Map.get st.sessions id) (d id)

is_over_mono :
    (now later : ℕ) (y : Life) → now ≤ later → is_over now y ≡ true → is_over later y ≡ true
is_over_mono now later y h e = ground arith

Agrees-later :
    (now later : ℕ) (s : Option Session) (o : Option Life)
    → now ≤ later
    → Agrees now s o
    → Agrees later s o
Agrees-later now later s o h (both x y p q c f) = both x y p q c f
Agrees-later now later s o h (absent p q) = absent p q
Agrees-later now later s o h (evicted y p q over) = evicted y p q (is_over_mono now later y h over)

pub Related-later :
    (now later : ℕ) (st : SessionStore) (d : Dictionary)
    → now ≤ later
    → Related now st d
    → Related later st d
Related-later now later st d h r = record {
  agrees = λ id. Agrees-later now later (Map.get st.sessions id) (d id) h (r.agrees id);
}

module _ (now : ℕ) (id : Text) (st : SessionStore) (d : Dictionary) (r : Related now st d) where
  -- The entry of one id is changed on both sides.
  pub Related-update :
      (after : SessionStore) (s : Option Session) (o : Option Life)
      → ((j : Text)
          → Map.get after.sessions j ≡ (if text_eq id j then s else Map.get st.sessions j))
      → Agrees now s o
      → Related now after (update id o d)
  Related-update after s o entry a = record {
    agrees = λ j. elim (Bool-cases (text_eq id j)) [
      | inl same ↦ rw (entry j, same) a
      | inr other ↦ rw (entry j, other) (r.agrees j)
    ];
  }

  -- The entry of one id is changed in the store alone.
  Related-keep :
      (after : SessionStore) (s : Option Session)
      → ((j : Text)
          → Map.get after.sessions j ≡ (if text_eq id j then s else Map.get st.sessions j))
      → Agrees now s (d id)
      → Related now after d
  Related-keep after s entry a = record {
    agrees = λ j. elim (Bool-cases (text_eq id j)) [
      | inl same ↦
          rw (entry j, same) (subst (λ x. Agrees now s (d x)) ((text_eq_iff id j).0 same) a)
      | inr other ↦ rw (entry j, other) (r.agrees j)
    ];
  }

  -- What `get_mut` finds.
  pub data Looked : Type 0 where
    missing :
        (after : SessionStore)
        → get_mut now id st ≡ (none, after)
        → if_live now (d id) ≡ none
        → Related now after d
        → Looked
    present :
        (x : Session) (y : Life)
        → get_mut now id st ≡ (some x, st)
        → if_live now (d id) ≡ some y
        → x.created_at ≡ y.begun
        → ((key : Text) → Map.get x.fields key ≡ y.value key)
        → Looked

  pub looked : Looked
  unfolding get_mut is_expired
  looked = by_entry (r.agrees id)
    where
      by_entry : Agrees now (Map.get st.sessions id) (d id) → Looked
      by_entry (absent p q) = missing st (rw (get_mut, p) refl) (rw q refl) r
      by_entry (evicted y p q over) = missing st (rw (get_mut, p) refl) (rw (q, over) refl) r
      by_entry (both x y p q c f) = elim (Bool-cases (is_over now y)) [
        | inl over ↦
            let old : is_expired now x ≡ true = rw c over in
            missing (record { sessions = remove st.sessions id }) (rw (get_mut, p, old) refl)
              (rw (q, over) refl)
              (Related-keep (record { sessions = remove st.sessions id }) none
                (get-remove st.sessions id) (evicted y refl q over))
        | inr lives ↦
            let young : is_expired now x ≡ false = rw c lives in
            present x y (rw (get_mut, p, young) refl) (rw (q, lives) refl) c f
      ]
