-- ===== src/Server/Run.antt =====
-- src/server.rs: `Server::new` and `Server::run`, from the address to the events of each wait.
use localserver.Base.{
  ℕ, ◌==◌, Bool, Option, List, [], ◌∷◌, map, if◌then◌else◌, Outcome, done, refused, question, ◌>>=◌,
}
use localserver.Std.Text.{Text, Unicode}
use localserver.Config.Data.{ServerConfig}
use localserver.Config.Load.{addr}
use localserver.Cgi.Run.{Processes}
use localserver.Epoll.{Mask, Kernel, Epoll, new, add, set_nonblocking}
use localserver.Handler.World.{FileSystem, Moment, World}
use localserver.Server.{State, first_config, check_timeouts}
use localserver.Server.Read.{Arrival, Incoming}
use localserver.Server.Write.{Socket}
use localserver.Server.Rounds.{Event, acceptable, writable, readable, handle_events, opened}

pub record Server : Type 0 where
  pub configs : List ServerConfig

-- An event of `epoll_wait`, with what is there when its descriptor is used.
pub record Ready : Type 0 where
  pub fd : ℕ
  pub flags : Mask
  pub arrivals : List Arrival
  pub socket : Socket
  pub incoming : Incoming
  pub moment : Moment

-- The listener accepts; what can be written to is written to, and all else is read.
unfoldable pub event_of : ℕ → Ready → Event
event_of listener r =
    if r.fd == listener
    then acceptable r.arrivals
    else if r.flags.output
    then writable r.fd r.socket
    else readable r.fd r.incoming r.moment

-- What a wait comes to: an error, or the clock and the events.
pub data Waited : Type 0 where
  wait_failed : Waited
  woken : ℕ → List Ready → Waited

pub record Listening (k : Kernel) : Type 0 where
  pub listener : ℕ
  pub epoll : Epoll
  pub system : k.System

module _ (k : Kernel) where
  listen : ℕ → Epoll → k.System × Bool → Outcome (Listening k)
  listen listener e (s, added) =
      if added then done (record { listener = listener; epoll = e; system = s }) else refused

  watch_listener : ℕ → k.System × Option Epoll → Outcome (Listening k)
  watch_listener listener (s, made) = do e ← question made; listen listener e (add k e listener s)

  prepare_listener : ℕ → k.System × Bool → Outcome (Listening k)
  prepare_listener listener (s, prepared) =
      let rest = watch_listener listener (new k s) in if prepared then rest else refused

  -- Up to the loop; `bind` is `TcpListener::bind`.
  unfoldable pub open_listener :
      (Text → Option ℕ) → List ServerConfig → k.System → Outcome (Listening k)
  unfolding listen watch_listener prepare_listener
  open_listener bind configs s = do
    first ← first_config configs
    listener ← question (bind (addr first))
    prepare_listener listener (set_nonblocking k listener s)

module _ (u : Unicode) (fs : FileSystem) (system : Processes) (configs : List ServerConfig) where
  -- The loop, for as many waits as there are; an error of a wait ends it.
  unfoldable pub run_waits : ℕ → List Waited → State fs → Outcome (State fs)
  unfolding event_of
  run_waits listener [] st = done st
  run_waits listener (wait_failed ∷ later) st = refused
  run_waits listener (woken now ready ∷ later) st = do
    after ←
        handle_events u fs system configs (map (event_of listener) ready) (check_timeouts fs now st)
    run_waits listener later after

unfoldable pub run :
    (k : Kernel) (u : Unicode) (fs : FileSystem)
    → Processes
    → (Text → Option ℕ)
    → Server
    → k.System
    → World fs
    → List Waited
    → Outcome (State fs)
unfolding open_listener run_waits
run k u fs system bind server s w waits = do
  l ← open_listener k bind server.configs s
  run_waits u fs system server.configs l.listener waits (opened fs w)
