-- ===== src/Server.antt =====
-- src/server.rs: the event loop's state, the choice of a server, and the timeouts.
pub mod Read
pub mod Write
pub mod Timeouts
pub mod Rounds
pub mod Run
pub mod Choice
pub mod Exchange
pub mod Watch
use mathlib.Core.Option
use localserver.Base.{
  ℕ, ◌-◌, ◌*◌, ◌==◌, Bool, Option, none, some, List, [], ◌∷◌, ◌++◌, if◌then◌else◌, leb, Outcome,
  done, panicked, ◌>>=◌,
}
use localserver.Std.Text.{Text, Bytes, chars, text_eq, split, split_once}
use localserver.Std.Map
use localserver.Std.Map.{insert, remove}
use localserver.Std.Keys.{text_key, number_key}
use localserver.Config.Data.{ServerConfig}
use localserver.Request.Message.{Request}
use localserver.Handler.World.{FileSystem, World}

-- What the loop asks of the kernel: epoll's registrations, and a socket's end. `sent` holds the
-- bytes that a socket has taken.
pub data Call : Type 0 where
  registered watched removed closed shut : ℕ → Call
  sent : ℕ → Bytes → Call

-- The loop's maps, by file descriptor, with the world that the handlers work on and the calls
-- made so far.
pub record State (fs : FileSystem) : Type 0 where
  pub world : World fs
  pub read_buffers : List (ℕ × Bytes)
  pub write_buffers : List (ℕ × Bytes)
  pub connect_times : List (ℕ × ℕ)
  pub calls : List Call

unfoldable pub first_config : List ServerConfig → Outcome ServerConfig
first_config [] = panicked
first_config (c ∷ rest) = done c

abbrev pub before_colon : List Text → Text
before_colon [] = []
before_colon (host ∷ rest) = host

unfoldable pub host_of : Request → Text
host_of req = elim (Map.get req.headers (chars "host")) [
  | none ↦ []
  | some h ↦ before_colon (split (λ c. c == b':') h)
]

unfoldable pub named : Text → ServerConfig → Bool
named host c = elim c.server_name [ none ↦ Bool.false | some name ↦ text_eq name host ]

unfoldable pub find_config : Text → List ServerConfig → Option ServerConfig
unfolding named
find_config host [] = none
find_config host (c ∷ rest) =
    let later = find_config host rest in if named host c then some c else later

-- The server that the request names, or the first one.
unfoldable pub match_config : List ServerConfig → Request → Outcome ServerConfig
unfolding first_config host_of find_config
match_config configs req = do
  first ← first_config configs
  done (Option.get_or (find_config (host_of req) configs) first)

-- The path without its query, which goes into a header of the server's own.
unfoldable pub with_query : Request → Request
with_query req = elim (split_once b'?' req.path) [
  | none ↦ record req { headers = insert req.headers (chars "x-query-string") [] }
  | some (path, query) ↦ record req {
    path = path;
    headers = insert req.headers (chars "x-query-string") query;
  }
]

-- `as_secs() > 30`: 31 whole seconds or more, in nanoseconds.
abbrev pub timeout_reached : ℕ
timeout_reached = 31 * 1000000000

unfoldable pub is_timed_out : ℕ → ℕ → Bool
is_timed_out now t = leb timeout_reached (now - t)

unfoldable pub timed_out : ℕ → List (ℕ × ℕ) → List ℕ
unfolding is_timed_out
timed_out now [] = []
timed_out now ((fd, t) ∷ times) =
    let rest = timed_out now times in if is_timed_out now t then fd ∷ rest else rest

module _ (fs : FileSystem) where
  unfoldable pub close_timed_out : State fs → List ℕ → State fs
  close_timed_out st [] = st
  close_timed_out st (fd ∷ fds) =
      close_timed_out
        (record st {
          read_buffers = remove st.read_buffers fd;
          write_buffers = remove st.write_buffers fd;
          connect_times = remove st.connect_times fd;
          calls = st.calls ++ removed fd ∷ closed fd ∷ [];
        })
        fds

  unfoldable pub check_timeouts : ℕ → State fs → State fs
  unfolding timed_out close_timed_out
  check_timeouts now st = close_timed_out st (timed_out now st.connect_times)
