-- ===== src/Server/Exchange/Early.antt =====
-- A request of which a first part arrives alone.
use localserver.Base.{
  ℕ, ◌≤◌, ◌<◌, ◌≡◌, refl, sym, ap, ◌∙◌, false, none, some, List, [], ◌∷◌, ◌++◌, arith, length, take,
  length-append, ltb, take-append, done, refused, ==-self,
}
use localserver.Std.Text.{Text, Bytes, Unicode, position}
use localserver.Std.Text.Lines.{join_lines, AllLines, position-join_lines}
use localserver.Std.Text.Cut.{position-take}
use localserver.Std.Map
use localserver.Std.Map.{get-insert, get-remove}
use localserver.Std.Keys.{number_key}
use localserver.Config.Data.{ServerConfig}
use localserver.Request.Message.{Dict, parse, separator}
use localserver.Request.Message.Format.{
  AllHeaders, format_request, request_line, header_lines, header_lines-AllLines,
  request_line-IsLine,
}
use localserver.Request.Message.RoundTrip.{IsRequestLine}
use localserver.Response.{error, bad_request}
use localserver.Response.Serialize.{serialize_response}
use localserver.Cgi.Run.{Processes}
use localserver.Handler.World.{FileSystem, Moment}
use localserver.Server.{State, first_config}
use localserver.Server.Read.{
  Incoming, drained, receive, attempt, config_for, is_too_large, answer_data, answer_parsed,
  reply_to, respond, queue, after_read, handle_read,
}
use localserver.Server.Read.Steps.{joined, get-receive}
use localserver.Server.Write.{Socket}
use localserver.Server.Write.Delivery.{Progress, on_writables}
use localserver.Server.Write.Ends.{AllHonest, on_writables-delivers}

-- What is cut off before the blank line ends is no request.
parse-early :
    (u : Unicode) (m p v : Text) (hs : Dict) (body part later : Bytes)
    → IsRequestLine m p v
    → AllHeaders hs
    → part ++ later ≡ format_request m p v hs body
    → length part < length (format_request m p v hs [])
    → parse u part ≡ refused
unfolding parse format_request
parse-early u m p v hs body part later line headers whole early =
    let head : Text = join_lines (request_line m p v) (header_lines hs) in
    let lined : AllLines (request_line m p v ∷ header_lines hs) = (
      request_line-IsLine m p v line.method_word line.path_word line.version_word,
      header_lines-AllLines hs headers,
    ) in
    let blank = position-join_lines (request_line m p v) (header_lines hs) body lined in
    let cut : take (length part) (head ++ (separator ++ body)) ≡ part =
      ap (take (length part)) (sym whole) ∙ take-append part later in
    let none_there : position separator part ≡ none =
      ap (position separator) (sym cut)
      ∙ position-take (length part) (length head) separator (head ++ (separator ++ body)) blank
          (omega (arith, length-append head separator)) in
    rw none_there refl

module _ (u : Unicode) (fs : FileSystem) (system : Processes) (first : ServerConfig)
    (rest : List ServerConfig) where
  handle_read-refused :
      (fd : ℕ) (incoming : Incoming) (moment : Moment) (st : State fs) (part : Bytes)
      → Map.get st.read_buffers fd ≡ some []
      → incoming.ending ≡ drained
      → joined incoming.chunks ≡ part
      → parse u part ≡ refused
      → length part ≤ first.client_max_body_size
      → (after : State fs) × (handle_read u fs system (first ∷ rest) fd incoming moment st
          ≡ done after)
        × (Map.get after.write_buffers fd ≡ some (serialize_response (error bad_request)))
        × (Map.get after.read_buffers fd ≡ none)
        × (after.world ≡ st.world)
  unfolding handle_read after_read respond is_too_large attempt config_for first_config reply_to
      answer_data answer_parsed
  handle_read-refused fd incoming moment st part fresh at_end arrived no_request fits =
      let now = record st { read_buffers = receive fd incoming.chunks st.read_buffers } in
      let all_read : Map.get now.read_buffers fd ≡ some part =
        get-receive fd incoming.chunks st.read_buffers [] fresh ∙ ap some arrived in
      let small : ltb first.client_max_body_size (length part) ≡ false = ground arith in
      let queued = queue u fs system (first ∷ rest) fd (error bad_request) now in
      (
        record queued { read_buffers = Map.remove now.read_buffers fd },
        rw
            (
              handle_read, at_end, after_read, respond, all_read, is_too_large, no_request, small,
              reply_to, answer_data, no_request,
            )
            refl,
        unfold queue in
            (get-insert st.write_buffers fd fd (serialize_response (error bad_request))
              ∙ rw (==-self fd) refl),
        get-remove now.read_buffers fd fd ∙ rw (==-self fd) refl,
        unfold queue in refl,
      )

  -- A client writes a request in ASCII of which a first part arrives alone, that ends before the
  -- blank line does and is not longer than the limit of the listener's first server. Then
  -- `handle_read` does not wait for the rest: it drops the part, changes neither disk nor sessions,
  -- and ends with the error page of status 400, which the events in which the socket can be written
  -- to send, in order: all of it before an orderly end; a first part of it where each event so far
  -- has ended at a write that would block; or the part before a write that failed or took nothing.
  -- Sockets take no more bytes than they are offered.
  pub handle_read-early :
      (m p v : Text) (hs : Dict) (body part later : Bytes)
      → IsRequestLine m p v
      → AllHeaders hs
      → part ++ later ≡ format_request m p v hs body
      → length part < length (format_request m p v hs [])
      → length part ≤ first.client_max_body_size
      → (fd : ℕ) (incoming : Incoming) (moment : Moment) (st : State fs)
      → Map.get st.read_buffers fd ≡ some []
      → incoming.ending ≡ drained
      → joined incoming.chunks ≡ part
      → (sockets : List Socket) → AllHonest sockets
      → (after final : State fs) × (handle_read u fs system (first ∷ rest) fd incoming moment st
          ≡ done after)
        × (Map.get after.read_buffers fd ≡ none)
        × (after.world ≡ st.world)
        × (on_writables fs fd sockets after ≡ done final)
        × Progress fs fd sockets after final (serialize_response (error bad_request))
  handle_read-early m p v hs body part later line headers whole early fits fd incoming moment st
        fresh at_end arrived sockets honest =
      let (after, ended, queued, gone, same) =
        handle_read-refused fd incoming moment st part fresh at_end arrived
          (parse-early u m p v hs body part later line headers whole early) fits in
      let (final, wrote, progress) =
        on_writables-delivers fs fd sockets after (serialize_response (error bad_request)) honest
          queued in
      (after, final, ended, gone, same, wrote, progress)
