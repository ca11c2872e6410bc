-- ===== src/Server/Read.antt =====
-- src/server.rs: `accept_connections` and `handle_read`.
pub mod Steps
pub mod Reply
pub mod Responds
pub mod Stale
pub mod Stalls
use localserver.Base.{
  ℕ, Bool, Option, none, some, List, [], ◌∷◌, ◌++◌, if◌then◌else◌, ltb, length, Outcome, done,
  refused, panicked, out_of_fuel, ◌>>=◌,
}
use localserver.Std.Text.{Text, Bytes, Unicode}
use localserver.Std.Map
use localserver.Std.Map.{insert, remove}
use localserver.Std.Keys.{number_key}
use localserver.Config.Data.{ServerConfig}
use localserver.Request.Message.{Request, parse}
use localserver.Response.{Response, error, content_too_large, bad_request}
use localserver.Response.Serialize.{serialize_response}
use localserver.Cgi.Run.{Processes}
use localserver.Handler.World.{FileSystem, Moment, World}
use localserver.Handler.Build.{build_response}
use localserver.Server.{
  State, Call, registered, watched, removed, closed, match_config, first_config, with_query,
}

-- A connection that was accepted, whether the socket could be prepared, and the clock.
pub record Arrival : Type 0 where
  pub fd : ℕ
  pub prepared : Bool
  pub now : ℕ

-- How the reads of a socket end.
pub data ReadEnd : Type 0 where
  drained disconnected failed : ReadEnd

-- What a socket gives to a run of reads: the bytes of each read, and how they end.
pub record Incoming : Type 0 where
  pub chunks : List Bytes
  pub ending : ReadEnd

-- Bytes for a socket without a buffer are dropped.
unfoldable pub receive : ℕ → List Bytes → List (ℕ × Bytes) → List (ℕ × Bytes)
receive fd [] buffers = buffers
receive fd (chunk ∷ chunks) buffers = receive fd chunks (extended (Map.get buffers fd))
  where
    extended : Option Bytes → List (ℕ × Bytes)
    extended none = buffers
    extended (some buffer) = insert buffers fd (buffer ++ chunk)

-- `match Request::parse(data)`: a buffer that holds no request is one of the cases.
unfoldable pub attempt : Outcome Request → Outcome (Option Request)
attempt (done req) = done (some req)
attempt refused = done none
attempt panicked = panicked
attempt out_of_fuel = out_of_fuel

module _ (fs : FileSystem) where
  -- An error on a new socket ends the server.
  unfoldable pub accept_connections : List Arrival → State fs → Outcome (State fs)
  accept_connections [] st = done st
  accept_connections (a ∷ arrivals) st = do
    ready ← (if a.prepared then done st else refused)
    accept_connections arrivals (record ready {
      read_buffers = insert ready.read_buffers a.fd [];
      connect_times = insert ready.connect_times a.fd a.now;
      calls = ready.calls ++ registered a.fd ∷ [];
    })

module _ (u : Unicode) (fs : FileSystem) (system : Processes) (configs : List ServerConfig) where
  unfoldable pub config_for : Option Request → Outcome ServerConfig
  config_for none = first_config configs
  config_for (some req) = match_config configs req

  -- The limit is on all that was read, the headers too.
  unfoldable pub is_too_large : Bytes → Outcome Bool
  unfolding attempt config_for
  is_too_large bytes = do
    parsed ← attempt (parse u bytes)
    config ← config_for parsed
    done (ltb config.client_max_body_size (length bytes))

  unfoldable pub answer_parsed : Moment → World fs → Option Request → Outcome (Response × World fs)
  answer_parsed m w none = done (error bad_request, w)
  answer_parsed m w (some req) = do
    config ← match_config configs (with_query req)
    build_response u fs system m config (with_query req) w

  unfoldable pub answer_data : Moment → World fs → Bytes → Outcome (Response × World fs)
  unfolding answer_parsed
  answer_data m w bytes = do parsed ← attempt (parse u bytes); answer_parsed m w parsed

  unfoldable pub queue : ℕ → Response → State fs → State fs
  queue fd r st = record st {
    write_buffers = insert st.write_buffers fd (serialize_response r);
    calls = st.calls ++ watched fd ∷ [];
  }

  -- The read buffer of a request that is too large stays.
  unfoldable pub reply_to : ℕ → Moment → Bytes → Bool → State fs → Outcome (State fs)
  reply_to fd m bytes Bool.true st = done (queue fd (error content_too_large) st)
  reply_to fd m bytes Bool.false st = do
    (r, w) ← answer_data m st.world bytes
    done
        (record (queue fd r (record st { world = w })) { read_buffers = remove st.read_buffers fd })

  unfoldable pub respond : ℕ → Moment → State fs → Outcome (State fs)
  unfolding is_too_large answer_data queue reply_to
  respond fd m st = elim (Map.get st.read_buffers fd) [
    | none ↦ done (record st { read_buffers = remove st.read_buffers fd })
    | some bytes ↦ (do big ← is_too_large bytes; reply_to fd m bytes big st)
  ]

  unfoldable pub forget : ℕ → List Call → State fs → State fs
  forget fd calls st = record st {
    read_buffers = remove st.read_buffers fd;
    write_buffers = remove st.write_buffers fd;
    calls = st.calls ++ calls;
  }

  -- A connection that the client closed is not closed here, and its time of connection stays.
  unfoldable pub after_read : ℕ → ReadEnd → Moment → State fs → Outcome (State fs)
  after_read fd drained m st = respond fd m st
  after_read fd disconnected m st = done (forget fd (removed fd ∷ []) st)
  after_read fd failed m st = done (forget fd (removed fd ∷ closed fd ∷ []) st)

  unfoldable pub handle_read : ℕ → Incoming → Moment → State fs → Outcome (State fs)
  unfolding receive respond after_read forget
  handle_read fd incoming m st =
      after_read fd incoming.ending m
        (record st { read_buffers = receive fd incoming.chunks st.read_buffers })
