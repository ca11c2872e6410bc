-- ===== src/Server/Watch/Reported.antt =====
-- The descriptors of the events that a wait has reported, while the events are handled.
use mathlib.Core.Path.{subst}
use localserver.Base.{
  ℕ, ◌≡◌, ◌≢◌, refl, sym, ◌∙◌, ◌==◌, ==-self, ==_iff, false, Bool-cases, inl, inr, List, [], ◌∷◌,
  done,
}
use localserver.Std.Map.{get-remove}
use localserver.Std.Keys.{number_key}
use localserver.Handler.World.{FileSystem}
use localserver.Server.{State, Call, registered, timed_out, close_timed_out, check_timeouts}
use localserver.Server.Read.{Arrival, accept_connections}
use localserver.Server.Rounds.{Event, acceptable, writable, readable}
use localserver.Server.Watch.{
  Watching, idle, reading, writing, to_reading, watching, watching-append, Same, Touches,
}
use localserver.Server.Watch.Received.{Reported, in_use, given_up}
use localserver.Server.Watch.Steps.{evict, evict-Touches, arrived, arrived-Touches}

-- The reads among the events are of descriptors that are watched.
abbrev pub AllWatched : List Call → List Event → Type 0
AllWatched calls [] = Unit
AllWatched calls (acceptable arrivals ∷ events) = AllWatched calls events
AllWatched calls (writable fd socket ∷ events) = AllWatched calls events
AllWatched calls (readable fd incoming m ∷ events) =
    (watching fd calls ≢ idle) × AllWatched calls events

abbrev NoRead : ℕ → List Event → Type 0
NoRead fd [] = Unit
NoRead fd (acceptable arrivals ∷ events) = NoRead fd events
NoRead fd (writable j socket ∷ events) = NoRead fd events
NoRead fd (readable j incoming m ∷ events) = ((fd == j) ≡ false) × NoRead fd events

-- A descriptor has one event at most: none behind its first is a read.
abbrev pub AllOnce : List Event → Type 0
AllOnce [] = Unit
AllOnce (acceptable arrivals ∷ events) = AllOnce events
AllOnce (writable fd socket ∷ events) = NoRead fd events × AllOnce events
AllOnce (readable fd incoming m ∷ events) = NoRead fd events × AllOnce events

to_reading-not_idle : (w : Watching) → to_reading w ≢ idle
to_reading-not_idle idle e = cc
to_reading-not_idle reading e = cc
to_reading-not_idle writing e = cc

module _ {fs : FileSystem} where
  abbrev pub AllReported : List Event → State fs → Type 0
  AllReported [] st = Unit
  AllReported (acceptable arrivals ∷ events) st = AllReported events st
  AllReported (writable fd socket ∷ events) st = AllReported events st
  AllReported (readable fd incoming m ∷ events) st = Reported fd st × AllReported events st

  pub AllWatched-AllReported :
      (events : List Event) (st : State fs) → AllWatched st.calls events → AllReported events st
  AllWatched-AllReported [] st w = tt
  AllWatched-AllReported (acceptable arrivals ∷ events) st w = AllWatched-AllReported events st w
  AllWatched-AllReported (writable fd socket ∷ events) st w = AllWatched-AllReported events st w
  AllWatched-AllReported (readable fd incoming m ∷ events) st (used, w) =
      (in_use used, AllWatched-AllReported events st w)

  Reported-Same :
      (fd : ℕ) (before after : State fs)
      → Same fd before after
      → Reported fd before
      → Reported fd after
  Reported-Same fd before after s (in_use w) = in_use (λ e. w (sym s.same_watch ∙ e))
  Reported-Same fd before after s (given_up gone) = given_up (s.same_read ∙ gone)

  -- A change that keeps what is reported of each descriptor.
  AllReported-map :
      (before after : State fs)
      → ((fd : ℕ) → Reported fd before → Reported fd after)
      → (events : List Event) → AllReported events before
      → AllReported events after
  AllReported-map before after f [] r = tt
  AllReported-map before after f (acceptable arrivals ∷ events) r =
      AllReported-map before after f events r
  AllReported-map before after f (writable fd socket ∷ events) r =
      AllReported-map before after f events r
  AllReported-map before after f (readable fd incoming m ∷ events) (here, r) =
      (f fd here, AllReported-map before after f events r)

  pub AllReported-Touches :
      (fd : ℕ) (before after : State fs)
      → Touches fd before after
      → (events : List Event) → NoRead fd events
      → AllReported events before
      → AllReported events after
  AllReported-Touches fd before after t [] n r = tt
  AllReported-Touches fd before after t (acceptable arrivals ∷ events) n r =
      AllReported-Touches fd before after t events n r
  AllReported-Touches fd before after t (writable j socket ∷ events) n r =
      AllReported-Touches fd before after t events n r
  AllReported-Touches fd before after t (readable j incoming m ∷ events) (other, n) (here, r) = (
    Reported-Same j before after (t.others j other) here,
    AllReported-Touches fd before after t events n r,
  )

  -- A change of one descriptor after which it is reported.
  Touches-Reported :
      (j : ℕ) (before after : State fs)
      → Touches j before after
      → Reported j after
      → (fd : ℕ) → Reported fd before
      → Reported fd after
  Touches-Reported j before after t here fd r = elim (Bool-cases (j == fd)) [
    | inl same ↦ subst (λ x. Reported x after) ((==_iff j fd).0 same) here
    | inr other ↦ Reported-Same fd before after (t.others fd other) r
  ]

  close_timed_out-Reported :
      (fds : List ℕ) (st : State fs) (events : List Event)
      → AllReported events st
      → AllReported events (close_timed_out fs st fds)
  unfolding close_timed_out evict
  close_timed_out-Reported [] st events r = r
  close_timed_out-Reported (j ∷ fds) st events r =
      let gone = get-remove st.read_buffers j j ∙ rw (==-self j) refl in
      close_timed_out-Reported fds (evict j st) events (
        AllReported-map st (evict j st)
          (Touches-Reported j st (evict j st) (evict-Touches j st) (given_up gone)) events r)

  pub check_timeouts-Reported :
      (now : ℕ) (st : State fs) (events : List Event)
      → AllReported events st
      → AllReported events (check_timeouts fs now st)
  unfolding check_timeouts
  check_timeouts-Reported now st events r =
      close_timed_out-Reported (timed_out now st.connect_times) st events r

  arrived-in_use : (a : Arrival) (st : State fs) → Reported a.fd (arrived a st)
  unfolding arrived
  arrived-in_use a st =
      let w = watching-append a.fd st.calls (registered a.fd ∷ []) ∙ rw (==-self a.fd) refl in
      in_use (λ e. to_reading-not_idle (watching a.fd st.calls) (sym w ∙ e))

  pub accept_connections-Reported :
      (arrivals : List Arrival) (st : State fs) (events : List Event) {after : State fs}
      → AllReported events st
      → accept_connections fs arrivals st ≡ done after
      → AllReported events after
  unfolding accept_connections arrived
  accept_connections-Reported [] st events {after} r e =
      let same : st ≡ after = cc in subst (AllReported events) same r
  accept_connections-Reported (a ∷ arrivals) st events r e = elim (Bool-cases a.prepared) [
    | inl ready ↦
        accept_connections-Reported arrivals (arrived a st) events
          (AllReported-map st (arrived a st)
            (Touches-Reported a.fd st (arrived a st) (arrived-Touches a st) (arrived-in_use a st))
            events r)
          (rw (accept_connections, ready) at e)
    | inr unready ↦ let e1 = rw (accept_connections, unready) at e in absurd cc
  ]
