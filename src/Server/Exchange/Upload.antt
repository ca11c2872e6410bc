-- ===== src/Server/Exchange/Upload.antt =====
-- An upload over one connection, and what a GET over another then brings.
use mathlib.Core.Path.{subst}
use localserver.Base.{
  ℕ, ◌≤◌, ◌≡◌, refl, sym, ap, ◌∙◌, true, false, none, some, List, [], ◌∷◌, length, done,
}
use localserver.Std.Text.{Text, Bytes, Unicode, chars, text_eq, split_once}
use localserver.Std.Map
use localserver.Std.Keys.{number_key}
use localserver.Config.Data.{Location, ServerConfig}
use localserver.Request.Message.{Dict, Method, Request, parse_method, is_chunked}
use localserver.Request.Message.Format.{AllHeaders, format_request, lower_headers}
use localserver.Request.Message.RoundTrip.{IsRequestLine}
use localserver.Response.{Response, okay, new}
use localserver.Response.Serialize.{serialize_response}
use localserver.Cgi.Run.{Processes}
use localserver.Handler.World.{FileSystem, Moment, World}
use localserver.Handler.Route.{is_method_allowed}
use localserver.Handler.Files.{get_content_type}
use localserver.Handler.Files.Stored.{IsFileSystem}
use localserver.Handler.Build.{build_response}
use localserver.Handler.Build.Answers.{AllCooperate}
use localserver.Handler.Build.Upload.{IsFilePath, build_response-uploaded}
use localserver.Server.{State, match_config, with_query}
use localserver.Server.Read.{Incoming, drained, handle_read}
use localserver.Server.Read.Steps.{joined}
use localserver.Server.Exchange.{request_of, exchange}
use localserver.Server.Write.{Socket}
use localserver.Server.Write.Delivery.{Progress, on_writables}
use localserver.Server.Write.Ends.{AllHonest}

-- A request that is written to a connection with an empty buffer, with what `exchange` asks of it.
pub record Visit (u : Unicode) (fs : FileSystem) (configs : List ServerConfig)
    (config : ServerConfig) (method path : Text) : Type 0 where
  pub version : Text
  pub headers : Dict
  pub body : Bytes
  pub fd : ℕ
  pub incoming : Incoming
  pub before : State fs
  pub moment : Moment
  pub line : IsRequestLine method path version
  pub all_headers : AllHeaders headers
  pub plain : is_chunked u (lower_headers u [] headers) ≡ false
  pub fresh : Map.get before.read_buffers fd ≡ some []
  pub at_end : incoming.ending ≡ drained
  pub arrived : joined incoming.chunks ≡ format_request method path version headers body
  pub chosen : match_config configs (request_of u method path version headers body) ≡ done config
  pub fits : length (format_request method path version headers body) ≤ config.client_max_body_size

module _ (u : Unicode) (path : Text) (no_query : split_once b'?' path ≡ none)
    (method version : Text) (headers : Dict) (body : Bytes) where
  abbrev asked : Request
  asked = with_query (request_of u method path version headers body)

  asked-path : asked.path ≡ path
  unfolding with_query
  asked-path = rw (with_query, no_query) refl

  asked-method : asked.method ≡ parse_method method
  unfolding with_query
  asked-method = rw (with_query, no_query) refl

  asked-body : asked.body ≡ body
  unfolding with_query
  asked-body = rw (with_query, no_query) refl

module _ (u : Unicode) (fs : FileSystem) (system : Processes) (first : ServerConfig)
    (rest : List ServerConfig) (config : ServerConfig) (cooperate : AllCooperate system) where
  -- A visit is answered with the response that is built, and its socket gets the bytes.
  visit-served :
      (method path : Text) (v : Visit u fs (first ∷ rest) config method path)
      (sockets : List Socket) {r : Response} {w : World fs}
      → AllHonest sockets
      → build_response u fs system v.moment config
          (with_query (request_of u method path v.version v.headers v.body))
          v.before.world
        ≡ done (r, w)
      → (after : State fs) × (handle_read u fs system
            (first ∷ rest)
            v.fd
            v.incoming
            v.moment
            v.before
          ≡ done after)
        × (after.world ≡ w)
        × (final : State fs) × (on_writables fs v.fd sockets after ≡ done final)
        × Progress fs v.fd sockets after final (serialize_response r)
  visit-served method path v sockets {r} {w} honest built =
      let (after, ended, (x, answered, gone, final, wrote, progress)) =
        exchange u fs system first rest cooperate v.moment method path v.version v.headers v.body
          v.line v.all_headers v.plain v.fd v.incoming v.before v.fresh v.at_end v.arrived config
          v.chosen v.fits sockets honest in
      let same : x ≡ r = cc in
      let left : after.world ≡ w = cc in
      (
        after,
        ended,
        left,
        final,
        wrote,
        subst (λ y. Progress fs v.fd sockets after final (serialize_response y)) same progress,
      )

  -- A client uploads to the path of a file, without a query, at which POST and GET are allowed, and
  -- the upload is answered with status 200. A client that then asks for the path, on any connection
  -- and whenever the disk is as the upload left it, is answered with the body of the upload, byte
  -- for byte, and the content type of its name: `handle_read` ends, and the events in which the
  -- socket can be written to end with the bytes of this response sent, in order: all of them before
  -- an orderly end; a first part of them where each event so far has ended at a write that would
  -- block; or the part before a write that failed or took nothing. Both visits are as `exchange`
  -- asks, and the file system keeps what is written.
  pub exchange-uploaded :
      IsFileSystem fs
      → (path : Text) (loc : Location) → split_once b'?' path ≡ none
      → IsFilePath config path loc
      → is_method_allowed Method.post loc ≡ true
      → is_method_allowed Method.get loc ≡ true
      → (upload : Visit u fs (first ∷ rest) config (chars "POST") path) (r : Response)
        (w : World fs)
      → build_response u fs system upload.moment config
          (with_query (request_of u (chars "POST") path upload.version upload.headers upload.body))
          upload.before.world
        ≡ done (r, w)
      → r.status ≡ okay
      → (fetch : Visit u fs (first ∷ rest) config (chars "GET") path)
      → fetch.before.world.disk ≡ w.disk
      → (sockets : List Socket) → AllHonest sockets
      → (after final : State fs) × (handle_read u fs system
            (first ∷ rest)
            fetch.fd
            fetch.incoming
            fetch.moment
            fetch.before
          ≡ done after)
        × (on_writables fs fetch.fd sockets after ≡ done final)
        × Progress fs fetch.fd sockets after final
            (serialize_response (new okay (get_content_type path) upload.body))
  unfolding parse_method text_eq
  exchange-uploaded law path loc no_query file posts gets upload r w answered accepted fetch kept
        sockets honest =
      let post_path =
        asked-path u path no_query (chars "POST") upload.version upload.headers upload.body in
      let get_path =
        asked-path u path no_query (chars "GET") fetch.version fetch.headers fetch.body in
      let post =
        asked-method u path no_query (chars "POST") upload.version upload.headers upload.body in
      let get = asked-method u path no_query (chars "GET") fetch.version fetch.headers fetch.body in
      let posted =
        asked-body u path no_query (chars "POST") upload.version upload.headers upload.body in
      let (full, served) =
        build_response-uploaded u fs system config loc law upload.moment fetch.moment _ _
          upload.before.world w fetch.before.world r
          (subst (λ p. IsFilePath config p loc) (sym post_path) file) posts gets post get
          (get_path ∙ sym post_path) answered accepted kept in
      let sent : Request =
        with_query (request_of u (chars "POST") path upload.version upload.headers upload.body) in
      let stored =
        served
        ∙ ap (λ p. done (new okay (get_content_type p) sent.body, fetch.before.world)) post_path
        ∙ ap (λ b. done (new okay (get_content_type path) b, fetch.before.world)) posted in
      let (after, ended, left, final, wrote, progress) =
        visit-served (chars "GET") path fetch sockets honest stored in
      (after, final, ended, wrote, progress)
