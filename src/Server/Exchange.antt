-- ===== src/Server/Exchange.antt =====
-- From the request that a client writes to the bytes that it gets.
pub mod Upload
pub mod Early
use mathlib.Core.Path.{subst}
use localserver.Base.{ℕ, ◌≤◌, ◌≡◌, ap, ◌∙◌, false, none, some, List, [], ◌∷◌, arith, length, done}
use localserver.Std.Text.{Text, Bytes, Unicode}
use localserver.Std.Map
use localserver.Std.Keys.{number_key}
use localserver.Config.Data.{ServerConfig}
use localserver.Request.Message.{Dict, Request, parse_method, parse, is_chunked}
use localserver.Request.Message.Format.{AllHeaders, format_request, lower_headers}
use localserver.Request.Message.RoundTrip.{IsRequestLine, parse-format_request}
use localserver.Response.{Response}
use localserver.Response.Serialize.{serialize_response}
use localserver.Cgi.Run.{Processes}
use localserver.Handler.World.{FileSystem, Moment}
use localserver.Handler.Build.{build_response}
use localserver.Handler.Build.Answers.{AllCooperate}
use localserver.Server.{State, match_config, with_query}
use localserver.Server.Read.{Incoming, drained, handle_read}
use localserver.Server.Read.Steps.{joined}
use localserver.Server.Read.Reply.{Answered, too_large, malformed, built, named_by}
use localserver.Server.Read.Responds.{handle_read-responds}
use localserver.Server.Write.{Socket}
use localserver.Server.Write.Delivery.{Progress, on_writables}
use localserver.Server.Write.Ends.{AllHonest, on_writables-delivers}

-- A response that was built is written by the events of a socket: the bytes that it takes are those
-- of the response, in order.
abbrev pub Serves :
    (u : Unicode) (fs : FileSystem)
    → Processes
    → ServerConfig
    → Moment
    → Request
    → ℕ
    → List Socket
    → State fs
    → State fs
    → Type 0
Serves u fs system config m req fd sockets before after =
    (r : Response) × (build_response u fs system m config req before.world ≡ done (r, after.world))
    × (Map.get after.read_buffers fd ≡ none)
    × (final : State fs) × (on_writables fs fd sockets after ≡ done final)
    × Progress fs fd sockets after final (serialize_response r)

-- What the parser makes of the request.
abbrev pub request_of : Unicode → Text → Text → Text → Dict → Bytes → Request
request_of u method path version hs body = record {
  method = parse_method method;
  path = path;
  version = version;
  headers = lower_headers u [] hs;
  body = body;
}

module _ (u : Unicode) (fs : FileSystem) (system : Processes) (first : ServerConfig)
    (rest : List ServerConfig) where
  Answered-Serves :
      (fd : ℕ) (sockets : List Socket) (m : Moment) (bytes : Bytes) (before after : State fs)
      (req : Request) (config : ServerConfig)
      → AllHonest sockets
      → Answered u fs system (first ∷ rest) fd m before.world bytes after
      → parse u bytes ≡ done req
      → match_config (first ∷ rest) req ≡ done config
      → length bytes ≤ config.client_max_body_size
      → Serves u fs system config m (with_query req) fd sockets before after
  Answered-Serves fd sockets m bytes before after req config honest
        (too_large other by big queued kept) read chosen fits =
      let named = named_by u fs system (first ∷ rest) bytes other req by read in
      let same : other ≡ config = cc in
      let limit : other.client_max_body_size ≡ config.client_max_body_size =
        ap (λ (c : ServerConfig). c.client_max_body_size) same in
      absurd (omega (arith, limit))
  Answered-Serves fd sockets m bytes before after req config honest
        (malformed no_request queued gone kept) read chosen fits =
      absurd (cc (no_request, read))
  Answered-Serves fd sockets m bytes before after req config honest
        (built parsed other r parses named small build queued gone) read chosen fits =
      let same : parsed ≡ req = cc in
      let agreed : other ≡ config =
        cc (subst (λ x. match_config (first ∷ rest) x ≡ done other) same named) in
      let (final, wrote, progress) =
        on_writables-delivers fs fd sockets after (serialize_response r) honest queued in
      (
        r,
        subst
            (λ x.
              build_response u fs system m config (with_query x) before.world
              ≡ done (r, after.world))
            same
            (subst
              (λ c.
                build_response u fs system m c (with_query parsed) before.world
                ≡ done (r, after.world))
              agreed build),
        gone,
        final,
        wrote,
        progress,
      )

  -- A client writes a request in ASCII that its headers do not call chunked, and it is not longer
  -- than the limit of the server that it names. Every script that is started takes the body that it
  -- is offered and leaves its output open to nobody else when it ends, each poll of it comes at
  -- least ten milliseconds after the one before, and sockets take no more bytes than they are
  -- offered. Whatever reads the request comes in on a new connection, `handle_read` ends with the
  -- response that `build_response` gives for it, and the events in which its socket can be written
  -- to end with the bytes of the response sent, in order: all of them before an orderly end; a
  -- first part of them where each event so far has ended at a write that would block; or the part
  -- before a write that failed or took nothing. The system's clock is not before 1970.
  pub exchange :
      AllCooperate system
      → (m : Moment) (method path version : Text) (hs : Dict) (body : Bytes)
      → IsRequestLine method path version
      → AllHeaders hs
      → is_chunked u (lower_headers u [] hs) ≡ false
      → (fd : ℕ) (incoming : Incoming) (before : State fs)
      → Map.get before.read_buffers fd ≡ some []
      → incoming.ending ≡ drained
      → joined incoming.chunks ≡ format_request method path version hs body
      → (config : ServerConfig)
      → match_config (first ∷ rest) (request_of u method path version hs body) ≡ done config
      → length (format_request method path version hs body) ≤ config.client_max_body_size
      → (sockets : List Socket) → AllHonest sockets
      → (after : State fs) × (handle_read u fs system (first ∷ rest) fd incoming m before
          ≡ done after)
        × Serves u fs system config m
            (with_query (request_of u method path version hs body))
            fd
            sockets
            before
            after
  exchange cooperate m method path version hs body line headers plain fd incoming before fresh
        at_end arrived config chosen fits sockets honest =
      let req = request_of u method path version hs body in
      let read : parse u (joined incoming.chunks) ≡ done req =
        ap (parse u) arrived
        ∙ parse-format_request u method path version hs line headers body plain in
      let (after, ended, answered) =
        handle_read-responds u fs system first rest cooperate fd incoming m before [] fresh at_end
          (λ e. cc (e, read)) in
      (
        after,
        ended,
        Answered-Serves fd sockets m (joined incoming.chunks) before after req config honest
            answered read chosen (rw arrived fits),
      )
