-- ===== src/Server/Watch/Writes.antt =====
-- The phases through the event of a socket that can be written to.
use mathlib.Core.Path.{subst}
use localserver.Base.{
  ℕ, ◌+◌, ◌≡◌, refl, ◌∙◌, ==-self, Option-cases, inl, inr, some, [], ◌∷◌, ◌++◌, length, done,
  >>=-eq-done,
}
use localserver.Std.Text.{Bytes}
use localserver.Std.Map
use localserver.Std.Map.{insert, remove, get-insert, get-remove}
use localserver.Std.Keys.{number_key}
use localserver.Handler.World.{FileSystem}
use localserver.Server.{State, removed, closed, shut, sent}
use localserver.Server.Write.{
  Socket, Ending, complete, blocked, broken, write_loop, after_write, handle_write, on_writable,
  finish_write, forget_time,
}
use localserver.Server.Watch.{
  writing, watching, watching-append, Phase, idle_phase, reading_phase, writing_phase, Touches,
  Touches-trans,
}

module _ {fs : FileSystem} (fd : ℕ) where
  -- What the event leaves of its descriptor.
  pub record Written (before after : State fs) : Type 0 where
    pub touches : Touches fd before after
    pub phase : Phase fd after

  forget_time-Touches : (st : State fs) → Touches fd st (forget_time fs fd st)
  forget_time-Touches st = record {
    others = λ j e. record {
      same_watch = refl;
      same_read = refl;
      same_write = refl;
      same_time = get-remove st.connect_times fd j ∙ rw e refl;
    };
  }

  finish_write-Touches : (st : State fs) → Touches fd st (finish_write fs fd st)
  unfolding finish_write
  finish_write-Touches st = record {
    others = λ j e. record {
      same_watch = watching-append j st.calls (removed fd ∷ shut fd ∷ closed fd ∷ []) ∙ rw e refl;
      same_read = refl;
      same_write = get-remove st.write_buffers fd j ∙ rw e refl;
      same_time = refl;
    };
  }

  finish_write-Phase : (st : State fs) → Phase fd (forget_time fs fd (finish_write fs fd st))
  unfolding finish_write
  finish_write-Phase st =
      idle_phase
        (watching-append fd st.calls (removed fd ∷ shut fd ∷ closed fd ∷ []) ∙ rw (==-self fd) refl)
        (get-remove st.write_buffers fd fd ∙ rw (==-self fd) refl)

  after_write-Touches :
      (how : Ending) (rest : Bytes) (st : State fs) → Touches fd st (after_write fs fd how rest st)
  unfolding after_write
  after_write-Touches complete rest st = finish_write-Touches st
  after_write-Touches blocked rest st = record {
    others = λ j e. record {
      same_watch = refl;
      same_read = refl;
      same_write = get-insert st.write_buffers fd j rest ∙ rw e refl;
      same_time = refl;
    };
  }
  after_write-Touches broken rest st = record {
    others = λ j e. record {
      same_watch = watching-append j st.calls (removed fd ∷ closed fd ∷ []) ∙ rw e refl;
      same_read = refl;
      same_write = get-remove st.write_buffers fd j ∙ rw e refl;
      same_time = refl;
    };
  }

  after_write-Phase :
      (how : Ending) (rest : Bytes) (st : State fs)
      → watching fd st.calls ≡ writing
      → Phase fd (forget_time fs fd (after_write fs fd how rest st))
  unfolding after_write
  after_write-Phase complete rest st w = finish_write-Phase st
  after_write-Phase blocked rest st w =
      writing_phase rest w (get-insert st.write_buffers fd fd rest ∙ rw (==-self fd) refl)
  after_write-Phase broken rest st w =
      idle_phase (watching-append fd st.calls (removed fd ∷ closed fd ∷ []) ∙ rw (==-self fd) refl)
        (get-remove st.write_buffers fd fd ∙ rw (==-self fd) refl)

  took : Bytes → State fs → State fs
  took out st = record st { calls = st.calls ++ sent fd out ∷ [] }

  took-Touches : (out : Bytes) (st : State fs) → Touches fd st (took out st)
  unfolding took
  took-Touches out st = record {
    others = λ j e. record {
      same_watch = watching-append j st.calls (sent fd out ∷ []);
      same_read = refl;
      same_write = refl;
      same_time = refl;
    };
  }

  answer-writing :
      (st : State fs) {bytes : Bytes}
      → Map.get st.write_buffers fd ≡ some bytes
      → Phase fd st
      → watching fd st.calls ≡ writing
  answer-writing st here (idle_phase w b) = cc
  answer-writing st here (reading_phase bytes t w r b c) = cc
  answer-writing st here (writing_phase bytes w b) = w

  pub on_writable-Written :
      (socket : Socket) (st : State fs) {after : State fs}
      → Phase fd st
      → on_writable fs fd socket st ≡ done after
      → Written st after
  unfolding on_writable handle_write took
  on_writable-Written socket st {after} phase e =
      let (mid, wrote, ended) = >>=-eq-done (handle_write fs fd socket st) _ e in
      let last : forget_time fs fd mid ≡ after = cc in
      subst (Written st) last (elim (Option-cases (Map.get st.write_buffers fd)) [
        | inl gone ↦
            let same : finish_write fs fd st ≡ mid = cc (rw (handle_write, gone) at wrote) in
            subst (λ x. Written st (forget_time fs fd x)) same
              (record {
                touches =
                    Touches-trans fd st (finish_write fs fd st) _ (finish_write-Touches st)
                      (forget_time-Touches (finish_write fs fd st));
                phase = finish_write-Phase st;
              })
        | inr (bytes, here) ↦
            let ((how, out, rest), looped, next) =
              >>=-eq-done (write_loop socket (length bytes + 1) 0 bytes) _
                (rw (handle_write, here) at wrote) in
            let same : after_write fs fd how rest (took out st) ≡ mid = cc in
            let watches =
              watching-append fd st.calls (sent fd out ∷ []) ∙ answer-writing st here phase in
            subst (λ x. Written st (forget_time fs fd x)) same
              (record {
                touches = Touches-trans fd st (took out st) _ (took-Touches out st) (
                    Touches-trans fd (took out st) _ _ (after_write-Touches how rest (took out st))
                      (forget_time-Touches _));
                phase = after_write-Phase how rest (took out st) watches;
              })
      ])
