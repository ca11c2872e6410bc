-- ===== src/Session/Dictionary.antt =====
-- The session store and its specification, run on the same operations.
pub mod Related
pub mod Refines
use localserver.Base.{
  ℕ, ◌-◌, ◌≤◌, Bool, true, false, Option, none, some, List, [], ◌∷◌, if◌then◌else◌, ltb,
}
use localserver.Std.Text.{Text, text_eq}
use localserver.Session.{lifetime, SessionStore, create, set, get_value, destroy, cleanup}

-- A session: when it began and what its fields hold.
pub record Life : Type 0 where
  pub begun : ℕ
  pub value : Text → Option Text

-- A dictionary forgets nothing by itself: what has expired is told by the time alone.
abbrev pub Dictionary : Type 0
Dictionary = Text → Option Life

abbrev pub is_over : ℕ → Life → Bool
is_over now y = ltb lifetime (now - y.begun)

abbrev pub if_live : ℕ → Option Life → Option Life
if_live now none = none
if_live now (some y) = if is_over now y then none else some y

abbrev pub update : Text → Option Life → Dictionary → Dictionary
update id o d j = if text_eq id j then o else d j

abbrev pub with_value : Text → Text → Life → Life
with_value key v y = record y { value = λ k. if text_eq key k then some v else y.value k }

pub data Op : Type 0 where
  begin : Text → Op
  put : Text → Text → Text → Op
  fetch : Text → Text → Op
  quit : Text → Op
  sweep : Op

pub data Answer : Type 0 where
  nothing : Answer
  was_put : Bool → Answer
  fetched : Option Text → Answer

abbrev pub fresh : ℕ → Life
fresh now = record { begun = now; value = λ k. none }

abbrev pub put_in : Text → Text → Text → Dictionary → Option Life → Answer × Dictionary
put_in id key v d none = (was_put false, d)
put_in id key v d (some y) = (was_put true, update id (some (with_value key v y)) d)

abbrev pub value_of : Text → Option Life → Option Text
value_of key none = none
value_of key (some y) = y.value key

abbrev pub on_dictionary : ℕ → Op → Dictionary → Answer × Dictionary
on_dictionary now (begin id) d = (nothing, update id (some (fresh now)) d)
on_dictionary now (put id key v) d = put_in id key v d (if_live now (d id))
on_dictionary now (fetch id key) d = (fetched (value_of key (if_live now (d id))), d)
on_dictionary now (quit id) d = (nothing, update id none d)
on_dictionary now sweep d = (nothing, d)

-- The operations of the store, with their answers.
unfoldable pub on_store : ℕ → Op → SessionStore → Answer × SessionStore
on_store now (begin id) st = (nothing, create now id st)
on_store now (put id key v) st = let (done, after) = set now id key v st in (was_put done, after)
on_store now (fetch id key) st =
    let (found, after) = get_value now id key st in (fetched found, after)
on_store now (quit id) st = (nothing, destroy id st)
on_store now sweep st = (nothing, cleanup now st)

-- The answers to operations at their times.
abbrev pub answers {ℓ} : {S : Type ℓ} → (ℕ → Op → S → Answer × S) → List (ℕ × Op) → S → List Answer
answers run [] st = []
answers run ((now, op) ∷ later) st = (run now op st).0 ∷ answers run later (run now op st).1

-- The clock does not go back.
abbrev pub Ordered : ℕ → List (ℕ × Op) → Type 0
Ordered before [] = Unit
Ordered before ((now, op) ∷ later) = (before ≤ now) × Ordered now later
