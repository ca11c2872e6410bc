-- ===== src/Server/Watch/Steps.antt =====
-- The phases through the sweep, new connections and writes.
use mathlib.Core.Path.{subst}
use localserver.Base.{
  ℕ, ◌≡◌, refl, ◌∙◌, ◌==◌, ==-self, ==_iff, Bool-cases, inl, inr, none, List, [], ◌∷◌, ◌++◌, done,
}
use localserver.Std.Map
use localserver.Std.Map.{insert, remove, get-insert, get-remove}
use localserver.Std.Keys.{number_key}
use localserver.Handler.World.{FileSystem}
use localserver.Server.{
  State, registered, removed, closed, timed_out, close_timed_out, check_timeouts,
}
use localserver.Server.Read.{Arrival, accept_connections}
use localserver.Server.Watch.{
  idle, watching, watching-append, Phase, idle_phase, reading_phase, writing_phase, IsWatched,
  Touches, AllNew, Phase-Same,
}

module _ {fs : FileSystem} where
  -- A change of one descriptor keeps the phases if that one has a phase behind it.
  pub Touches-IsWatched :
      (fd : ℕ) (before after : State fs)
      → Touches fd before after
      → Phase fd after
      → IsWatched before
      → IsWatched after
  Touches-IsWatched fd before after t here w = record {
    phase = λ j. elim (Bool-cases (fd == j)) [
      | inl same ↦ subst (λ x. Phase x after) ((==_iff fd j).0 same) here
      | inr other ↦ Phase-Same j before after (t.others j other) (w.phase j)
    ];
  }

  unfoldable pub evict : ℕ → State fs → State fs
  evict fd st = record st {
    read_buffers = remove st.read_buffers fd;
    write_buffers = remove st.write_buffers fd;
    connect_times = remove st.connect_times fd;
    calls = st.calls ++ removed fd ∷ closed fd ∷ [];
  }

  pub evict-Touches : (fd : ℕ) (st : State fs) → Touches fd st (evict fd st)
  unfolding evict
  evict-Touches fd st = record {
    others = λ j e. record {
      same_watch = watching-append j st.calls (removed fd ∷ closed fd ∷ []) ∙ rw e refl;
      same_read = get-remove st.read_buffers fd j ∙ rw e refl;
      same_write = get-remove st.write_buffers fd j ∙ rw e refl;
      same_time = get-remove st.connect_times fd j ∙ rw e refl;
    };
  }

  evict-Phase : (fd : ℕ) (st : State fs) → Phase fd (evict fd st)
  unfolding evict
  evict-Phase fd st =
      idle_phase (watching-append fd st.calls (removed fd ∷ closed fd ∷ []) ∙ rw (==-self fd) refl)
        (get-remove st.write_buffers fd fd ∙ rw (==-self fd) refl)

  close_timed_out-IsWatched :
      (fds : List ℕ) (st : State fs) → IsWatched st → IsWatched (close_timed_out fs st fds)
  unfolding close_timed_out evict
  close_timed_out-IsWatched [] st w = w
  close_timed_out-IsWatched (fd ∷ fds) st w =
      close_timed_out-IsWatched fds (evict fd st)
        (Touches-IsWatched fd st (evict fd st) (evict-Touches fd st) (evict-Phase fd st) w)

  pub check_timeouts-IsWatched :
      (now : ℕ) (st : State fs) → IsWatched st → IsWatched (check_timeouts fs now st)
  unfolding check_timeouts
  check_timeouts-IsWatched now st w =
      close_timed_out-IsWatched (timed_out now st.connect_times) st w

  unfoldable pub arrived : Arrival → State fs → State fs
  arrived a st = record st {
    read_buffers = insert st.read_buffers a.fd [];
    connect_times = insert st.connect_times a.fd a.now;
    calls = st.calls ++ registered a.fd ∷ [];
  }

  pub arrived-Touches : (a : Arrival) (st : State fs) → Touches a.fd st (arrived a st)
  unfolding arrived
  arrived-Touches a st = record {
    others = λ j e. record {
      same_watch = watching-append j st.calls (registered a.fd ∷ []) ∙ rw e refl;
      same_read = get-insert st.read_buffers a.fd j [] ∙ rw e refl;
      same_write = refl;
      same_time = get-insert st.connect_times a.fd j a.now ∙ rw e refl;
    };
  }

  arrived-Phase :
      (a : Arrival) (st : State fs)
      → watching a.fd st.calls ≡ idle
      → Map.get st.write_buffers a.fd ≡ none
      → Phase a.fd (arrived a st)
  unfolding arrived
  arrived-Phase a st new none_waits =
      reading_phase [] a.now
        (watching-append a.fd st.calls (registered a.fd ∷ []) ∙ rw (==-self a.fd, new) refl)
        (get-insert st.read_buffers a.fd a.fd [] ∙ rw (==-self a.fd) refl) none_waits
        (get-insert st.connect_times a.fd a.fd a.now ∙ rw (==-self a.fd) refl)

  pub idle-no_answer :
      (fd : ℕ) (st : State fs)
      → watching fd st.calls ≡ idle
      → Phase fd st
      → Map.get st.write_buffers fd ≡ none
  idle-no_answer fd st w (idle_phase i b) = b
  idle-no_answer fd st w (reading_phase bytes t i r b c) = b
  idle-no_answer fd st w (writing_phase bytes i b) = cc

  pub accept_connections-IsWatched :
      (arrivals : List Arrival) (st : State fs) {after : State fs}
      → AllNew st.calls arrivals
      → IsWatched st
      → accept_connections fs arrivals st ≡ done after
      → IsWatched after
  unfolding accept_connections arrived
  accept_connections-IsWatched [] st {after} new w e =
      let same : st ≡ after = cc in subst IsWatched same w
  accept_connections-IsWatched (a ∷ arrivals) st (here, new) w e = elim (Bool-cases a.prepared) [
    | inl ready ↦
        accept_connections-IsWatched arrivals (arrived a st) new
          (Touches-IsWatched a.fd st (arrived a st) (arrived-Touches a st)
            (arrived-Phase a st here (idle-no_answer a.fd st here (w.phase a.fd))) w)
          (rw (accept_connections, ready) at e)
    | inr unready ↦ let e1 = rw (accept_connections, unready) at e in absurd cc
  ]
