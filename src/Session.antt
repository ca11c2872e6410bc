-- ===== src/Session.antt =====
-- src/utils/session.rs: the session store. The process has one store behind a mutex, so a handler
-- takes it and gives it back; `now` is the reading of the clock, in nanoseconds.
pub mod Identifier
pub mod View
pub mod Lifetime
pub mod Kept
pub mod Distinct
pub mod Dictionary
use mathlib.Core.Option
use localserver.Base.{
  ℕ, ◌-◌, Bool, true, false, not, Option, none, some, List, [], if◌then◌else◌, ltb, ◌==◌, ◌*◌,
}
use localserver.Std.Text.{Text}
use localserver.Std.Map
use localserver.Std.Map.{insert, remove, retain}
use localserver.Std.Keys.{text_key}

pub record Session : Type 0 where
  pub fields : List (Text × Text)
  pub created_at : ℕ

-- One hour.
abbrev pub lifetime : ℕ
lifetime = 3600 * 1000000000

unfoldable pub new_session : ℕ → Session
new_session now = record { fields = []; created_at = now }

-- `elapsed` is 0 where the clock has not moved on.
unfoldable pub is_expired : ℕ → Session → Bool
is_expired now s = ltb lifetime (now - s.created_at)

pub record SessionStore : Type 0 where
  pub sessions : List (Text × Session)

abbrev pub empty_store : SessionStore
empty_store = record { sessions = [] }

-- `id` is what `generate_id` gave.
unfoldable pub create : ℕ → Text → SessionStore → SessionStore
unfolding new_session
create now id st = record { sessions = insert st.sessions id (new_session now) }

-- `get` and `get_mut`: an expired session is evicted.
unfoldable pub get_mut : ℕ → Text → SessionStore → Option Session × SessionStore
unfolding is_expired
get_mut now id st = elim (Map.get st.sessions id) [
  | none ↦ (none, st)
  | some s ↦
      if is_expired now s then (none, record { sessions = remove st.sessions id }) else (some s, st)
]

write_field : Text → Text → Text → Option Session × SessionStore → Bool × SessionStore
write_field id key value (none, st) = (false, st)
write_field id key value (some s, st) = (
  true,
  record { sessions = insert st.sessions id (record s { fields = insert s.fields key value }) },
)

unfoldable pub set : ℕ → Text → Text → Text → SessionStore → Bool × SessionStore
unfolding get_mut write_field
set now id key value st = write_field id key value (get_mut now id st)

unfoldable pub read_field : Text → Option Session × SessionStore → Option Text × SessionStore
read_field key (none, st) = (none, st)
read_field key (some s, st) = (Map.get s.fields key, st)

unfoldable pub get_value : ℕ → Text → Text → SessionStore → Option Text × SessionStore
unfolding get_mut read_field
get_value now id key st = read_field key (get_mut now id st)

unfoldable pub destroy : Text → SessionStore → SessionStore
destroy id st = record { sessions = remove st.sessions id }

unfoldable pub cleanup : ℕ → SessionStore → SessionStore
unfolding is_expired
cleanup now st = record { sessions = retain (λ s. not (is_expired now s)) st.sessions }
