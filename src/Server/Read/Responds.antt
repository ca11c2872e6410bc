-- ===== src/Server/Read/Responds.antt =====
-- `handle_read` comes to an end with an answer, unless the parser panics.
use localserver.Base.{
  ℕ, ◌≡◌, ◌≢◌, refl, Bool, true, false, Option, none, some, List, ◌∷◌, ◌++◌, Outcome, done, refused,
  panicked, out_of_fuel, ltb, length,
}
use localserver.Std.Text.{Bytes, Unicode}
use localserver.Std.Map
use localserver.Std.Keys.{number_key}
use localserver.Config.Data.{ServerConfig}
use localserver.Request.Message.{Request, parse}
use localserver.Request.Message.Sound.{parse-finishes}
use localserver.Response.{Response}
use localserver.Cgi.Run.{Processes}
use localserver.Handler.World.{FileSystem, Moment, World}
use localserver.Handler.Build.Answers.{AllCooperate, build_response-Answers}
use localserver.Server.{State, first_config, with_query}
use localserver.Server.Choice.{match_config-IsFirstNamed}
use localserver.Server.Read.Steps.{joined, get-receive}
use localserver.Server.Read.Reply.{Answered, handle_read-Answered}
use localserver.Server.Read.{
  Incoming, drained, receive, attempt, config_for, is_too_large, answer_parsed, answer_data, queue,
  reply_to, respond, after_read, handle_read,
}

-- A parser's outcome that is no panic is a request or none.
attempt-ends :
    (o : Outcome Request)
    → o ≢ panicked
    → o ≢ out_of_fuel
    → (r : Option Request) × (attempt o ≡ done r)
unfolding attempt
attempt-ends (done req) p f = (some req, refl)
attempt-ends refused p f = (none, refl)
attempt-ends panicked p f = absurd (p refl)
attempt-ends out_of_fuel p f = absurd (f refl)

module _ (u : Unicode) (fs : FileSystem) (system : Processes) (first : ServerConfig)
    (rest : List ServerConfig) (cooperate : AllCooperate system) where
  config_for-ends :
      (parsed : Option Request)
      → (c : ServerConfig) × (config_for u fs system (first ∷ rest) parsed ≡ done c)
  unfolding config_for first_config
  config_for-ends none = (first, refl)
  config_for-ends (some req) =
      let (c, chosen, named) = match_config-IsFirstNamed first rest req in (c, chosen)

  answer_parsed-ends :
      (m : Moment) (w : World fs) (parsed : Option Request)
      → (x : Response × World fs) × (answer_parsed u fs system (first ∷ rest) m w parsed ≡ done x)
  unfolding answer_parsed
  answer_parsed-ends m w none = (_, refl)
  answer_parsed-ends m w (some req) =
      let (c, chosen, named) = match_config-IsFirstNamed first rest (with_query req) in
      let (r, after, built, disk, store) =
        build_response-Answers u fs system m c cooperate (with_query req) w in
      ((r, after), rw (chosen, built) refl)

  reply_to-ends :
      (fd : ℕ) (m : Moment) (bytes : Bytes) (big : Bool) (st : State fs) (parsed : Option Request)
      → attempt (parse u bytes) ≡ done parsed
      → (after : State fs) × (reply_to u fs system (first ∷ rest) fd m bytes big st ≡ done after)
  unfolding reply_to answer_data
  reply_to-ends fd m bytes true st parsed tried = (_, refl)
  reply_to-ends fd m bytes false st parsed tried =
      let ((r, w), answered) = answer_parsed-ends m st.world parsed in
      let queued = queue u fs system (first ∷ rest) fd r (record st { world = w }) in
      (record queued { read_buffers = Map.remove st.read_buffers fd }, rw (tried, answered) refl)

  -- If the listener has a server, a connection has a buffer, its socket is drained, every script
  -- that is started takes the body that it is offered and leaves its output open to nobody else
  -- when it ends, each poll of it comes at least ten milliseconds after the one before, and the
  -- parser does not panic on what was read, `handle_read` comes to an end with an answer in the
  -- write buffer. The system's clock is not before 1970.
  pub handle_read-responds :
      (fd : ℕ) (incoming : Incoming) (m : Moment) (st : State fs) (old : Bytes)
      → Map.get st.read_buffers fd ≡ some old
      → incoming.ending ≡ drained
      → parse u (old ++ joined incoming.chunks) ≢ panicked
      → (after : State fs) × (handle_read u fs system (first ∷ rest) fd incoming m st ≡ done after)
        × Answered u fs system (first ∷ rest) fd m st.world (old ++ joined incoming.chunks) after
  unfolding handle_read after_read respond is_too_large
  handle_read-responds fd incoming m st old here at_end calm =
      let bytes = old ++ joined incoming.chunks in
      let now = record st { read_buffers = receive fd incoming.chunks st.read_buffers } in
      let all_read = get-receive fd incoming.chunks st.read_buffers old here in
      let (parsed, tried) = attempt-ends (parse u bytes) calm (parse-finishes u bytes) in
      let (c, chosen) = config_for-ends parsed in
      let (after, replied) =
        reply_to-ends fd m bytes (ltb c.client_max_body_size (length bytes)) now parsed tried in
      let ended : handle_read u fs system (first ∷ rest) fd incoming m st ≡ done after =
        rw (handle_read, at_end, after_read, respond, all_read, is_too_large, tried, chosen)
          replied in
      (
        after,
        ended,
        handle_read-Answered u fs system (first ∷ rest) fd incoming m st old here at_end ended,
      )
