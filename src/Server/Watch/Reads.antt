-- ===== src/Server/Watch/Reads.antt =====
-- The phases through `handle_read`.
use mathlib.Core.Path.{subst}
use localserver.Base.{
  ℕ, ◌≡◌, ◌≢◌, refl, ◌∙◌, ◌==◌, ==-self, Bool, true, false, Option-cases, inl, inr, none, some,
  List, [], ◌∷◌, done, >>=-eq-done,
}
use localserver.Std.Text.{Bytes, Unicode}
use localserver.Std.Map
use localserver.Std.Map.{insert, remove, get-insert, get-remove}
use localserver.Std.Keys.{number_key}
use localserver.Config.Data.{ServerConfig}
use localserver.Response.{Response, error, content_too_large}
use localserver.Response.Serialize.{serialize_response}
use localserver.Cgi.Run.{Processes}
use localserver.Handler.World.{FileSystem, Moment, World}
use localserver.Server.{State, Call, removed, closed, watched}
use localserver.Server.Read.{
  Incoming, ReadEnd, drained, disconnected, failed, is_too_large, answer_data, queue, reply_to,
  respond, after_read, handle_read, forget,
}
use localserver.Server.Watch.{
  Watching, idle, reading, writing, to_writing, after_calls, watching, watching-append, Phase,
  idle_phase, reading_phase, writing_phase, Same-refl, Touches, Touches-trans,
}
use localserver.Server.Watch.Received.{
  Reported, in_use, given_up, received, received-Touches, received-Phase, received-Reported,
}
use localserver.Server.Watch.Writes.{Written}

to_writing-writing : (w : Watching) → w ≢ idle → to_writing w ≡ writing
to_writing-writing idle h = absurd (h refl)
to_writing-writing reading h = refl
to_writing-writing writing h = refl

module _ {fs : FileSystem} (fd : ℕ) where
  module _ (u : Unicode) (system : Processes) (configs : List ServerConfig) where
    queue-Touches :
        (r : Response) (st : State fs) → Touches fd st (queue u fs system configs fd r st)
    unfolding queue
    queue-Touches r st = record {
      others = λ j e. record {
        same_watch = watching-append j st.calls (watched fd ∷ []) ∙ rw e refl;
        same_read = refl;
        same_write = get-insert st.write_buffers fd j (serialize_response r) ∙ rw e refl;
        same_time = refl;
      };
    }

    -- An answer that was queued, whatever becomes of the buffers of reads.
    queue-Phase :
        (r : Response) (st : State fs) (buffers : List (ℕ × Bytes))
        → watching fd st.calls ≢ idle
        → Phase fd (record (queue u fs system configs fd r st) { read_buffers = buffers })
    unfolding queue
    queue-Phase r st buffers used =
        writing_phase (serialize_response r)
          (watching-append fd st.calls (watched fd ∷ [])
            ∙ rw (==-self fd) (to_writing-writing (watching fd st.calls) used))
          (get-insert st.write_buffers fd fd (serialize_response r) ∙ rw (==-self fd) refl)

    forget-Written :
        (calls : List Call) (st : State fs)
        → ((j : ℕ)
            → (fd == j) ≡ false
            → after_calls j calls (watching j st.calls) ≡ watching j st.calls)
        → after_calls fd calls (watching fd st.calls) ≡ idle
        → Written fd st (forget u fs system configs fd calls st)
    unfolding forget
    forget-Written calls st kept ended = record {
      touches = record {
        others = λ j e. record {
          same_watch = watching-append j st.calls calls ∙ kept j e;
          same_read = get-remove st.read_buffers fd j ∙ rw e refl;
          same_write = get-remove st.write_buffers fd j ∙ rw e refl;
          same_time = refl;
        };
      };
      phase =
          idle_phase (watching-append fd st.calls calls ∙ ended)
            (get-remove st.write_buffers fd fd ∙ rw (==-self fd) refl);
    }

    unread : State fs → State fs
    unread st = record st { read_buffers = remove st.read_buffers fd }

    unread-Touches :
        (w : World fs) (before st : State fs)
        → Touches fd (record before { world = w }) st
        → Touches fd before (unread st)
    unfolding unread
    unread-Touches w before st t = record {
      others = λ j e. record {
        same_watch = (t.others j e).same_watch;
        same_read = get-remove st.read_buffers fd j ∙ rw e (t.others j e).same_read;
        same_write = (t.others j e).same_write;
        same_time = (t.others j e).same_time;
      };
    }

    unread-Phase :
        (st : State fs) → Map.get st.read_buffers fd ≡ none → Phase fd st → Phase fd (unread st)
    unfolding unread
    unread-Phase st gone (idle_phase w b) = idle_phase w b
    unread-Phase st gone (reading_phase bytes t w r b c) = cc
    unread-Phase st gone (writing_phase bytes w b) = writing_phase bytes w b

    used :
        (st : State fs) {bytes : Bytes}
        → Map.get st.read_buffers fd ≡ some bytes
        → Reported fd st
        → watching fd st.calls ≢ idle
    used st here (in_use w) = w
    used st here (given_up gone) = cc

    reply_to-Written :
        (m : Moment) (bytes : Bytes) (big : Bool) (st : State fs) {after : State fs}
        → watching fd st.calls ≢ idle
        → reply_to u fs system configs fd m bytes big st ≡ done after
        → Written fd st after
    unfolding reply_to unread queue
    reply_to-Written m bytes true st {after} busy e =
        let r = error content_too_large in
        let same : queue u fs system configs fd r st ≡ after = cc in
        subst (Written fd st) same
          (record { touches = queue-Touches r st; phase = queue-Phase r st st.read_buffers busy })
    reply_to-Written m bytes false st {after} busy e =
        let ((r, w), answered, queues) =
          >>=-eq-done (answer_data u fs system configs m st.world bytes) _ e in
        let asked : State fs = record st { world = w } in
        let same : unread (queue u fs system configs fd r asked) ≡ after = cc in
        subst (Written fd st) same (record {
          touches =
              unread-Touches w st (queue u fs system configs fd r asked) (queue-Touches r asked);
          phase = queue-Phase r asked (remove st.read_buffers fd) busy;
        })

    respond-Written :
        (m : Moment) (st : State fs) {after : State fs}
        → Phase fd st
        → Reported fd st
        → respond u fs system configs fd m st ≡ done after
        → Written fd st after
    unfolding respond unread
    respond-Written m st {after} phase reported e =
        elim (Option-cases (Map.get st.read_buffers fd)) [
          | inl gone ↦
              let same : unread st ≡ after = cc (rw (respond, gone) at e) in
              subst (Written fd st) same (record {
                touches = unread-Touches st.world st st (record { others = λ j d. Same-refl j st });
                phase = unread-Phase st gone phase;
              })
          | inr (bytes, here) ↦
              let (big, limited, replied) =
                >>=-eq-done (is_too_large u fs system configs bytes) _ (rw (respond, here) at e) in
              reply_to-Written m bytes big st (used st here reported) replied
        ]

    after_read-Written :
        (ending : ReadEnd) (m : Moment) (st : State fs) {after : State fs}
        → Phase fd st
        → Reported fd st
        → after_read u fs system configs fd ending m st ≡ done after
        → Written fd st after
    unfolding after_read
    after_read-Written drained m st phase reported e = respond-Written m st phase reported e
    after_read-Written disconnected m st {after} phase reported e =
        let same : forget u fs system configs fd (removed fd ∷ []) st ≡ after = cc in
        subst (Written fd st) same
          (forget-Written (removed fd ∷ []) st (λ j d. rw d refl) (rw (==-self fd) refl))
    after_read-Written failed m st {after} phase reported e =
        let same : forget u fs system configs fd (removed fd ∷ closed fd ∷ []) st ≡ after = cc in
        subst (Written fd st) same (
          forget-Written (removed fd ∷ closed fd ∷ []) st (λ j d. rw d refl) (rw (==-self fd) refl))

    pub handle_read-Written :
        (incoming : Incoming) (m : Moment) (st : State fs) {after : State fs}
        → Phase fd st
        → Reported fd st
        → handle_read u fs system configs fd incoming m st ≡ done after
        → Written fd st after
    unfolding handle_read received
    handle_read-Written incoming m st {after} phase reported e =
        let w =
          after_read-Written incoming.ending m (received fd incoming st)
            (received-Phase fd incoming st phase) (received-Reported fd incoming st reported) e in
        record {
          touches =
              Touches-trans fd st (received fd incoming st) after (received-Touches fd incoming st)
                w.touches;
          phase = w.phase;
        }
