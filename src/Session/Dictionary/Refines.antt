-- ===== src/Session/Dictionary/Refines.antt =====
-- The session store answers as its specification does.
use mathlib.Core.Option
use mathlib.Core.Path.{subst}
use localserver.Base.{
  ℕ, ◌≡◌, refl, sym, ap, ◌∙◌, true, false, not, Option, none, some, List, [], ◌∷◌, if◌then◌else◌,
  Bool-cases, inl, inr,
}
use localserver.Std.Text.{Text}
use localserver.Std.Map
use localserver.Std.Map.{insert, remove, retain, get-insert, get-remove}
use localserver.Std.Map.Distinct.{get-retain}
use localserver.Std.Keys.{text_key}
use localserver.Session.{
  Session, new_session, is_expired, SessionStore, empty_store, create, set, get_value, destroy,
  cleanup, write_field, read_field,
}
use localserver.Session.Distinct.{IsStore, operations-IsStore}
use localserver.Session.Dictionary.{
  Life, Dictionary, is_over, with_value, Op, begin, put, fetch, quit, sweep, fetched, fresh,
  on_dictionary, on_store, answers, Ordered,
}
use localserver.Session.Dictionary.Related.{
  Agrees, both, absent, evicted, Related, Related-later, Related-update, missing, present, looked,
}

-- An operation that answers alike and keeps the two related.
abbrev Follows : ℕ → Op → SessionStore → Dictionary → Type 0
Follows now op st d =
    ((on_store now op st).0 ≡ (on_dictionary now op d).0)
    × Related now (on_store now op st).1 (on_dictionary now op d).1

module _ (now : ℕ) (st : SessionStore) (d : Dictionary) (r : Related now st d) where
  begin-Follows : (id : Text) → Follows now (begin id) st d
  unfolding on_store create new_session Map.get
  begin-Follows id = (
    refl,
    Related-update now id st d r (create now id st) (some (new_session now)) (some (fresh now))
        (λ j. get-insert st.sessions id j (new_session now))
        (both (new_session now) (fresh now) refl refl refl (λ key. refl)),
  )

  put-Follows : (id key v : Text) → Follows now (put id key v) st d
  unfolding on_store set write_field
  put-Follows id key v = elim (looked now id st d r) [
    | missing after g e kept ↦ rw (g, e) (refl, kept)
    | present x y g e c f ↦
        rw (g, e)
          (
            refl,
            Related-update now id st d r _ (some (record x { fields = insert x.fields key v }))
                (some (with_value key v y))
                (λ j. get-insert st.sessions id j (record x { fields = insert x.fields key v }))
                (both (record x { fields = insert x.fields key v }) (with_value key v y) refl refl c
                  (λ k. get-insert x.fields key k v ∙ rw (f k) refl)),
          )
  ]

  fetch-Follows : (id key : Text) → Follows now (fetch id key) st d
  unfolding on_store get_value read_field
  fetch-Follows id key = elim (looked now id st d r) [
    | missing after g e kept ↦ rw (g, e) (refl, kept)
    | present x y g e c f ↦ rw (g, e) (ap fetched (f key), r)
  ]

  quit-Follows : (id : Text) → Follows now (quit id) st d
  unfolding on_store destroy
  quit-Follows id = (
    refl,
    Related-update now id st d r (destroy id st) none none (get-remove st.sessions id)
        (absent refl refl),
  )

  survives :
      (s : Option Session) (o : Option Life)
      → Agrees now s o
      → Agrees now (Option.bind s (λ x. if not (is_expired now x) then some x else none)) o
  unfolding Option.bind is_expired
  survives s o (absent p q) = absent (rw p refl) q
  survives s o (evicted y p q over) = evicted y (rw p refl) q over
  survives s o (both x y p q c f) = elim (Bool-cases (is_over now y)) [
    | inl over ↦
        let old : is_expired now x ≡ true = rw c over in evicted y (rw (p, old) refl) q over
    | inr lives ↦
        let young : is_expired now x ≡ false = rw c lives in both x y (rw (p, young) refl) q c f
  ]

  sweep-Follows : IsStore st → Follows now sweep st d
  unfolding on_store cleanup
  sweep-Follows distinct = (
    refl,
    record {
      agrees = λ id.
          subst (λ s. Agrees now s (d id))
            (sym (get-retain (λ x. not (is_expired now x)) st.sessions id distinct))
            (survives (Map.get st.sessions id) (d id) (r.agrees id));
    },
  )

  op-Follows : (op : Op) → IsStore st → Follows now op st d
  op-Follows (begin id) distinct = begin-Follows id
  op-Follows (put id key v) distinct = put-Follows id key v
  op-Follows (fetch id key) distinct = fetch-Follows id key
  op-Follows (quit id) distinct = quit-Follows id
  op-Follows sweep distinct = sweep-Follows distinct

on_store-IsStore :
    (now : ℕ) (op : Op) (st : SessionStore) → IsStore st → IsStore (on_store now op st).1
unfolding on_store
on_store-IsStore now (begin id) st k = (operations-IsStore now id [] [] st k).0
on_store-IsStore now (put id key v) st k =
    let (a, b, c, e, f, g) = operations-IsStore now id key v st k in c
on_store-IsStore now (fetch id key) st k =
    let (a, b, c, e, f, g) = operations-IsStore now id key [] st k in e
on_store-IsStore now (quit id) st k =
    let (a, b, c, e, f, g) = operations-IsStore now id [] [] st k in f
on_store-IsStore now sweep st k = let (a, b, c, e, f, g) = operations-IsStore now [] [] [] st k in g

answers-agree :
    (now : ℕ) (ops : List (ℕ × Op)) (st : SessionStore) (d : Dictionary)
    → Ordered now ops
    → IsStore st
    → Related now st d
    → answers on_store ops st ≡ answers on_dictionary ops d
answers-agree now [] st d o k r = refl
answers-agree now ((later, op) ∷ ops) st d (h, o) k r =
    let (same, kept) = op-Follows later st d (Related-later now later st d h r) op k in
    let rest =
      answers-agree later ops (on_store later op st).1 (on_dictionary later op d).1 o
        (on_store-IsStore later op st k) kept in
    rw (same, rest) refl

-- Any operations on the session store, from an empty one on and at times that do not go back, are
-- answered as by a dictionary that evicts nothing and compares the age of a session with an hour.
pub answers-on_store :
    (ops : List (ℕ × Op))
    → Ordered 0 ops
    → answers on_store ops empty_store ≡ answers on_dictionary ops (λ id. none)
unfolding Map.get
answers-on_store ops o =
    answers-agree 0 ops empty_store (λ id. none) o tt (record { agrees = λ id. absent refl refl })
