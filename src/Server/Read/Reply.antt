-- ===== src/Server/Read/Reply.antt =====
-- What `handle_read` answers to a connection whose socket it has drained.
use mathlib.Core.Path.{subst}
use localserver.Base.{
  ℕ, ◌≡◌, refl, sym, ap, ◌∙◌, ◌≤◌, ◌<◌, ◌⊎◌, inl, inr, Bool, true, false, Option, none, some, List,
  ◌++◌, arith, ltb, ltb→lt, length, done, refused, >>=-eq-done, ==-self,
}
use localserver.Std.Text.{Bytes, Unicode}
use localserver.Std.Map
use localserver.Std.Map.{get-insert, get-remove}
use localserver.Std.Keys.{number_key, text_key}
use localserver.Config.Data.{ServerConfig}
use localserver.Request.Message.{Request, parse}
use localserver.Response.{Response, error, content_too_large, bad_request}
use localserver.Response.Serialize.{serialize_response}
use localserver.Cgi.Run.{Processes}
use localserver.Handler.World.{FileSystem, Moment, World}
use localserver.Handler.Build.{build_response}
use localserver.Server.{State, match_config, first_config, with_query}
use localserver.Server.Read.Steps.{joined, get-receive, attempt-done, match_config-with_query}
use localserver.Server.Read.{
  Incoming, drained, receive, attempt, config_for, is_too_large, answer_parsed, answer_data, queue,
  reply_to, respond, after_read, handle_read,
}

module _ (u : Unicode) (fs : FileSystem) (system : Processes) (configs : List ServerConfig) where
  -- The server that answers: the one that the request names, or the first if there is no request.
  abbrev pub ServedBy : Bytes → ServerConfig → Type 0
  ServedBy bytes config =
      ((req : Request) × (parse u bytes ≡ done req) × (match_config configs req ≡ done config))
      ⊎ ((parse u bytes ≡ refused) × (first_config configs ≡ done config))

  -- What stands in the write buffer: the answer to the bytes that were read.
  pub data Answered (fd : ℕ) (m : Moment) (w : World fs) (bytes : Bytes) (after : State fs)
      : Type 0 where
    too_large :
        (config : ServerConfig)
        → ServedBy bytes config
        → config.client_max_body_size < length bytes
        → Map.get after.write_buffers fd ≡ some (serialize_response (error content_too_large))
        → after.world ≡ w
        → Answered fd m w bytes after
    malformed :
        parse u bytes ≡ refused
        → Map.get after.write_buffers fd ≡ some (serialize_response (error bad_request))
        → Map.get after.read_buffers fd ≡ none
        → after.world ≡ w
        → Answered fd m w bytes after
    built :
        (req : Request) (config : ServerConfig) (r : Response)
        → parse u bytes ≡ done req
        → match_config configs req ≡ done config
        → length bytes ≤ config.client_max_body_size
        → build_response u fs system m config (with_query req) w ≡ done (r, after.world)
        → Map.get after.write_buffers fd ≡ some (serialize_response r)
        → Map.get after.read_buffers fd ≡ none
        → Answered fd m w bytes after

  served :
      (bytes : Bytes) (parsed : Option Request) (config : ServerConfig)
      → attempt (parse u bytes) ≡ done parsed
      → config_for u fs system configs parsed ≡ done config
      → ServedBy bytes config
  unfolding config_for
  served bytes parsed config tried chosen = elim (attempt-done (parse u bytes) tried) [
    | inl (req, read, is_req) ↦ inl (req, read, rw is_req at chosen)
    | inr (no_request, is_none) ↦ inr (no_request, rw is_none at chosen)
  ]

  is_too_large-done :
      (bytes : Bytes) {big : Bool}
      → is_too_large u fs system configs bytes ≡ done big
      → (config : ServerConfig) × ServedBy bytes config
        × (big ≡ ltb config.client_max_body_size (length bytes))
  unfolding is_too_large
  is_too_large-done bytes {big} e =
      let (parsed, tried, later) = >>=-eq-done (attempt (parse u bytes)) _ e in
      let (config, chosen, tested) = >>=-eq-done (config_for u fs system configs parsed) _ later in
      (config, served bytes parsed config tried chosen, cc)

  pub named_by :
      (bytes : Bytes) (config : ServerConfig) (req : Request)
      → ServedBy bytes config
      → parse u bytes ≡ done req
      → match_config configs req ≡ done config
  named_by bytes config req (inl (other, read, chosen)) parsed =
      let same : other ≡ req = cc in subst (λ x. match_config configs x ≡ done config) same chosen
  named_by bytes config req (inr (no_request, chosen)) parsed = absurd cc

  module _ (fd : ℕ) (m : Moment) (bytes : Bytes) (st : State fs) where
    queued :
        (r : Response)
        → Map.get (Map.insert st.write_buffers fd (serialize_response r)) fd
          ≡ some (serialize_response r)
    queued r = get-insert st.write_buffers fd fd (serialize_response r) ∙ rw (==-self fd)

    taken_out : Map.get (Map.remove st.read_buffers fd) fd ≡ none
    taken_out = get-remove st.read_buffers fd fd ∙ rw (==-self fd)

    small-Answered :
        (config : ServerConfig)
        → ServedBy bytes config
        → length bytes ≤ config.client_max_body_size
        → (r : Response) (w : World fs)
        → answer_data u fs system configs m st.world bytes ≡ done (r, w)
        → Answered fd m st.world bytes
            (record (queue u fs system configs fd r (record st { world = w })) {
              read_buffers = Map.remove st.read_buffers fd;
            })
    unfolding answer_data queue answer_parsed
    small-Answered config by fits r w e =
        let (parsed, tried, later) = >>=-eq-done (attempt (parse u bytes)) _ e in
        elim (attempt-done (parse u bytes) tried) [
          | inl (req, read, is_req) ↦
              let named = named_by bytes config req by read in
              let (config1, chosen, build) =
                >>=-eq-done (match_config configs (with_query req)) _ (rw is_req at later) in
              let by_request = match_config-with_query configs req in
              let same : config1 ≡ config = cc in
              built req config r read named fits
                (subst (λ c. build_response u fs system m c (with_query req) st.world ≡ done (r, w))
                  same build)
                (queued r) taken_out
          | inr (no_request, is_none) ↦
              let answered = rw is_none at later in
              let is_r : r ≡ error bad_request = cc in
              let is_w : w ≡ st.world = cc in
              malformed no_request (queued r ∙ ap (λ x. some (serialize_response x)) is_r) taken_out
                is_w
        ]

    reply_to-Answered :
        (config : ServerConfig) (big : Bool) {after : State fs}
        → ServedBy bytes config
        → big ≡ ltb config.client_max_body_size (length bytes)
        → reply_to u fs system configs fd m bytes big st ≡ done after
        → Answered fd m st.world bytes after
    unfolding reply_to queue
    reply_to-Answered config true {after} by test e =
        let same : queue u fs system configs fd (error content_too_large) st ≡ after = cc in
        subst (λ x. Answered fd m st.world bytes x) same
          (too_large config by (ltb→lt config.client_max_body_size (length bytes) (sym test))
            (queued (error content_too_large)) refl)
    reply_to-Answered config false {after} by test e =
        let ((r, w), answered, queues) =
          >>=-eq-done (answer_data u fs system configs m st.world bytes) _ e in
        let same : record (queue u fs system configs fd r (record st { world = w })) {
          read_buffers = Map.remove st.read_buffers fd;
        }
            ≡ after =
          cc in
        let fits : length bytes ≤ config.client_max_body_size = ground arith in
        subst (λ x. Answered fd m st.world bytes x) same
          (small-Answered config by fits r w answered)

  -- If a connection has a buffer and its socket is drained, and the handlers do not panic, its write
  -- buffer holds the answer to all bytes read so far: the error page of status 413 if they are more
  -- than the limit of the server that answers, the one of status 400 if they hold no request, else
  -- what `build_response` gives for the request; then the read buffer is gone but after a 413.
  pub handle_read-Answered :
      (fd : ℕ) (incoming : Incoming) (m : Moment) (st : State fs) (old : Bytes) {after : State fs}
      → Map.get st.read_buffers fd ≡ some old
      → incoming.ending ≡ drained
      → handle_read u fs system configs fd incoming m st ≡ done after
      → Answered fd m st.world (old ++ joined incoming.chunks) after
  unfolding handle_read after_read respond
  handle_read-Answered fd incoming m st old {after} here at_end e =
      let bytes = old ++ joined incoming.chunks in
      let now = record st { read_buffers = receive fd incoming.chunks st.read_buffers } in
      let all_read = get-receive fd incoming.chunks st.read_buffers old here in
      let (big, limited, replied) =
        >>=-eq-done (is_too_large u fs system configs bytes) _
          (rw (handle_read, at_end, after_read, respond, all_read) at e) in
      let (config, by, test) = is_too_large-done bytes limited in
      reply_to-Answered fd m bytes now config big by test replied
