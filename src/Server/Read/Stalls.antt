-- ===== src/Server/Read/Stalls.antt =====
-- A script that does not read the body of its request.
use localserver.Base.{
  ℕ, ◌≤◌, ◌≡◌, refl, ◌∙◌, false, some, List, ◌++◌, arith, length, ltb, done, never,
}
use localserver.Std.Text.{Bytes, Unicode}
use localserver.Std.Map
use localserver.Std.Keys.{number_key}
use localserver.Config.Data.{Cgi, Location, ServerConfig}
use localserver.Request.Message.{Request, parse}
use localserver.Cgi.Run.{Processes, Child}
use localserver.Handler.World.{FileSystem, Moment}
use localserver.Handler.Build.{}
use localserver.Handler.Build.Deaf.{IsDeafScript, build_response-stalls}
use localserver.Server.Read.Steps.{match_config-with_query}
use localserver.Server.{State, match_config, with_query}
use localserver.Server.Read.{
  Incoming, drained, attempt, config_for, is_too_large, answer_parsed, answer_data, reply_to,
  respond, after_read, handle_read,
}
use localserver.Server.Read.Steps.{joined, get-receive}

module _ (u : Unicode) (fs : FileSystem) (system : Processes) (configs : List ServerConfig) where
  -- If what a drained connection has sent is a POST with a body, not longer than the limit of its
  -- server, to a script that is started and does not take the body, `handle_read` never returns,
  -- whatever the polls of the script would say: the timeout is not reached.
  pub handle_read-stalls :
      (fd : ℕ) (incoming : Incoming) (m : Moment) (st : State fs) (old : Bytes) (req : Request)
      (config : ServerConfig) (loc : Location) (cgi : Cgi) (child : Child)
      → Map.get st.read_buffers fd ≡ some old
      → incoming.ending ≡ drained
      → parse u (old ++ joined incoming.chunks) ≡ done req
      → match_config configs req ≡ done config
      → length (old ++ joined incoming.chunks) ≤ config.client_max_body_size
      → IsDeafScript system config (with_query req) loc cgi child
      → handle_read u fs system configs fd incoming m st ≡ never
  unfolding handle_read after_read respond is_too_large config_for attempt reply_to answer_data
      answer_parsed
  handle_read-stalls fd incoming m st old req config loc cgi child here at_end read chosen fits
        deaf =
      let all_read = get-receive fd incoming.chunks st.read_buffers old here in
      let small : ltb config.client_max_body_size (length (old ++ joined incoming.chunks)) ≡ false =
        ground arith in
      let same = match_config-with_query configs req ∙ chosen in
      let stuck =
        build_response-stalls u fs system config (with_query req) loc cgi child deaf m st.world in
      rw
        (
          handle_read, at_end, after_read, respond, all_read, is_too_large, read, chosen, small,
          reply_to, answer_data, read, answer_parsed, same, stuck,
        )
        refl
