-- ===== src/Tests/Sessions.antt =====
-- Sessions: src/utils/session.rs.
use localserver.Base.{List, ℕ, ◌≡◌, refl, none, [], ◌∷◌, arith}
use localserver.Std.Text.{Text, chars, text_eq}
use localserver.Std.Map
use localserver.Std.Map.{insert, remove}
use localserver.Std.Keys.{text_key}
use localserver.Session.{SessionStore, empty_store, get_mut}
use localserver.Session.Dictionary.{
  Op, begin, put, fetch, quit, sweep, on_dictionary, on_store, answers,
}
use localserver.Session.Dictionary.Refines.{answers-on_store}
use localserver.Session.Identifier.{generate_id-injective}

abbrev id : Text
id = chars "ab"

-- A store with one session that began at 7.
abbrev one_session : SessionStore
one_session = record { sessions = (id, record { fields = []; created_at = 7 }) ∷ [] }

-- A session begins, is written to and read, and is read again when it is over.
abbrev visits : List (ℕ × Op)
visits =
    (7, begin id)
    ∷ (8, put id (chars "username") (chars "admin"))
    ∷ (9, fetch id (chars "username"))
    ∷ (9, sweep)
    ∷ (3600000000008, fetch id (chars "username"))
    ∷ (3600000000009, quit id)
    ∷ []

answers-on_store_example :
    answers on_store visits empty_store ≡ answers on_dictionary visits (λ j. none)
answers-on_store_example =
    answers-on_store visits
      (omega arith, (omega arith, (omega arith, (omega arith, (omega arith, (omega arith, tt))))))

generate_id-injective_example : ◌≡◌ {A = ℕ} 12345 12345
generate_id-injective_example =
    generate_id-injective 77 12345 12345 (omega arith) (omega arith) (omega arith) refl

expired_is_gone : (get_mut 3600000000008 id one_session).0 ≡ none
unfolding get_mut Map.get text_eq
expired_is_gone = refl
