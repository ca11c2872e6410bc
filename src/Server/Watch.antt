-- ===== src/Server/Watch.antt =====
-- What epoll watches a descriptor for, by the calls that the event loop has made, and the phases of
-- a connection.
pub mod Steps
pub mod Writes
pub mod Received
pub mod Reads
pub mod Reported
pub mod Reach
pub mod Kernel
pub mod Attended
use localserver.Base.{
  ℕ, ◌≡◌, refl, sym, ◌∙◌, ◌==◌, Bool, true, false, Option, none, some, List, [], ◌∷◌, ◌++◌,
  if◌then◌else◌,
}
use localserver.Std.Text.{Bytes}
use localserver.Std.Map
use localserver.Std.Keys.{number_key}
use localserver.Handler.World.{FileSystem}
use localserver.Server.Read.{Arrival}
use localserver.Server.{State, Call, registered, watched, removed, closed, shut, sent}

pub data Watching : Type 0 where
  idle reading writing : Watching

-- A registration can be changed only where there is one.
abbrev pub to_writing : Watching → Watching
to_writing idle = idle
to_writing reading = writing
to_writing writing = writing

-- A descriptor that is there already stays as it is.
abbrev pub to_reading : Watching → Watching
to_reading idle = reading
to_reading reading = reading
to_reading writing = writing

abbrev pub after_call : ℕ → Call → Watching → Watching
after_call fd (registered j) w = if j == fd then to_reading w else w
after_call fd (watched j) w = if j == fd then to_writing w else w
after_call fd (removed j) w = if j == fd then idle else w
after_call fd (closed j) w = if j == fd then idle else w
after_call fd (shut j) w = w
after_call fd (sent j bytes) w = w

abbrev pub after_calls : ℕ → List Call → Watching → Watching
after_calls fd [] w = w
after_calls fd (call ∷ calls) w = after_calls fd calls (after_call fd call w)

abbrev pub watching : ℕ → List Call → Watching
watching fd calls = after_calls fd calls idle

after_calls-append :
    (fd : ℕ) (before after : List Call) (w : Watching)
    → after_calls fd (before ++ after) w ≡ after_calls fd after (after_calls fd before w)
after_calls-append fd [] after w = refl
after_calls-append fd (call ∷ before) after w =
    after_calls-append fd before after (after_call fd call w)

pub watching-append :
    (fd : ℕ) (before after : List Call)
    → watching fd (before ++ after) ≡ after_calls fd after (watching fd before)
watching-append fd before after = after_calls-append fd before after idle

-- The kernel gives descriptors to new connections that it does not watch.
abbrev pub AllNew : List Call → List Arrival → Type 0
AllNew calls [] = Unit
AllNew calls (a ∷ arrivals) =
    (watching a.fd calls ≡ idle) × AllNew (calls ++ registered a.fd ∷ []) arrivals

module _ {fs : FileSystem} where
  -- A connection that is not watched has no answer that waits. One that is watched for reading has
  -- a buffer and a time, and no answer that waits. One that is watched for writing has an answer.
  pub data Phase (fd : ℕ) (st : State fs) : Type 0 where
    idle_phase : watching fd st.calls ≡ idle → Map.get st.write_buffers fd ≡ none → Phase fd st
    reading_phase :
        (bytes : Bytes) (t : ℕ)
        → watching fd st.calls ≡ reading
        → Map.get st.read_buffers fd ≡ some bytes
        → Map.get st.write_buffers fd ≡ none
        → Map.get st.connect_times fd ≡ some t
        → Phase fd st
    writing_phase :
        (bytes : Bytes)
        → watching fd st.calls ≡ writing
        → Map.get st.write_buffers fd ≡ some bytes
        → Phase fd st

  pub record IsWatched (st : State fs) : Type 0 where
    pub phase : (fd : ℕ) → Phase fd st

  -- A descriptor of which nothing has changed.
  pub record Same (fd : ℕ) (before after : State fs) : Type 0 where
    pub same_watch : watching fd after.calls ≡ watching fd before.calls
    pub same_read : Map.get after.read_buffers fd ≡ Map.get before.read_buffers fd
    pub same_write : Map.get after.write_buffers fd ≡ Map.get before.write_buffers fd
    pub same_time : Map.get after.connect_times fd ≡ Map.get before.connect_times fd

  -- Nothing has changed but for this descriptor.
  pub record Touches (fd : ℕ) (before after : State fs) : Type 0 where
    pub others : (j : ℕ) → (fd == j) ≡ false → Same j before after

  pub Phase-Same :
      (fd : ℕ) (before after : State fs) → Same fd before after → Phase fd before → Phase fd after
  Phase-Same fd before after s (idle_phase w b) = idle_phase (s.same_watch ∙ w) (s.same_write ∙ b)
  Phase-Same fd before after s (reading_phase bytes t w r b c) =
      reading_phase bytes t (s.same_watch ∙ w) (s.same_read ∙ r) (s.same_write ∙ b)
        (s.same_time ∙ c)
  Phase-Same fd before after s (writing_phase bytes w b) =
      writing_phase bytes (s.same_watch ∙ w) (s.same_write ∙ b)

  pub Same-refl : (fd : ℕ) (st : State fs) → Same fd st st
  Same-refl fd st = record {
    same_watch = refl;
    same_read = refl;
    same_write = refl;
    same_time = refl;
  }

  Same-trans : (fd : ℕ) (a b c : State fs) → Same fd a b → Same fd b c → Same fd a c
  Same-trans fd a b c s t = record {
    same_watch = t.same_watch ∙ s.same_watch;
    same_read = t.same_read ∙ s.same_read;
    same_write = t.same_write ∙ s.same_write;
    same_time = t.same_time ∙ s.same_time;
  }

  pub Touches-trans : (fd : ℕ) (a b c : State fs) → Touches fd a b → Touches fd b c → Touches fd a c
  Touches-trans fd a b c s t = record {
    others = λ j e. Same-trans j a b c (s.others j e) (t.others j e);
  }
