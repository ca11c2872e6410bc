-- ===== src/Server/Timeouts.antt =====
-- The connections that the loop closes because they have been open too long.
use localserver.Base.{
  ℕ, ◌+◌, ◌*◌, leb, ◌≡◌, refl, sym, ◌∙◌, ◌==◌, ==_iff, Bool, false, none, some, List, [], ◌∷◌, ◌++◌,
  arith, any, if◌then◌else◌, append_assoc, append-nil,
}
use localserver.Std.Map
use localserver.Std.Map.{get-remove}
use localserver.Std.Map.Distinct.{Distinct}
use localserver.Std.Keys.{number_key}
use localserver.Handler.World.{FileSystem}
use localserver.Server.{
  State, Call, removed, closed, is_timed_out, timed_out, close_timed_out, check_timeouts,
}

-- Whether the connection was accepted 31 seconds ago, or earlier; times are in nanoseconds.
abbrev pub is_over : ℕ → List (ℕ × ℕ) → ℕ → Bool
is_over now times fd = elim (Map.get times fd) [
  | none ↦ false
  | some t ↦ leb (t + 31 * 1000000000) now
]

is_timed_out-leb : (now t : ℕ) → is_timed_out now t ≡ leb (t + 31 * 1000000000) now
unfolding is_timed_out
is_timed_out-leb now t = ground arith

abbrev pub is_among : ℕ → List ℕ → Bool
is_among fd fds = any (λ j. j == fd) fds

abbrev pub closings : List ℕ → List Call
closings [] = []
closings (fd ∷ fds) = (removed fd ∷ closed fd ∷ []) ++ closings fds

absent-timed_out :
    (now : ℕ) (times : List (ℕ × ℕ)) (fd : ℕ)
    → Map.get times fd ≡ none
    → is_among fd (timed_out now times) ≡ false
unfolding timed_out Map.get
absent-timed_out now [] fd gone = refl
absent-timed_out now ((j, t) ∷ times) fd gone = ground (arith, absent-timed_out now times fd)

among-timed_out :
    (now : ℕ) (times : List (ℕ × ℕ)) (fd : ℕ)
    → Distinct times
    → is_among fd (timed_out now times) ≡ is_over now times fd
unfolding timed_out Map.get
among-timed_out now [] fd d = refl
among-timed_out now ((j, t) ∷ times) fd (new, d) = ground (
  arith,
  is_timed_out-leb now t,
  among-timed_out now times fd d,
  absent-timed_out now times j new,
  ==_iff j fd,
)

module _ (fs : FileSystem) (fd : ℕ) where
  -- An entry that is gone if its connection is among those to close.
  close-read :
      (fds : List ℕ) (st : State fs)
      → Map.get (close_timed_out fs st fds).read_buffers fd
        ≡ (if is_among fd fds then none else Map.get st.read_buffers fd)
  unfolding close_timed_out
  close-read [] st = refl
  close-read (j ∷ fds) st = close-read fds _ ∙ ground (arith, get-remove st.read_buffers j fd)

  close-write :
      (fds : List ℕ) (st : State fs)
      → Map.get (close_timed_out fs st fds).write_buffers fd
        ≡ (if is_among fd fds then none else Map.get st.write_buffers fd)
  unfolding close_timed_out
  close-write [] st = refl
  close-write (j ∷ fds) st = close-write fds _ ∙ ground (arith, get-remove st.write_buffers j fd)

  close-connect :
      (fds : List ℕ) (st : State fs)
      → Map.get (close_timed_out fs st fds).connect_times fd
        ≡ (if is_among fd fds then none else Map.get st.connect_times fd)
  unfolding close_timed_out
  close-connect [] st = refl
  close-connect (j ∷ fds) st =
      close-connect fds _ ∙ ground (arith, get-remove st.connect_times j fd)

close-calls :
    (fs : FileSystem) (fds : List ℕ) (st : State fs)
    → (close_timed_out fs st fds).calls ≡ st.calls ++ closings fds
unfolding close_timed_out
close-calls fs [] st = sym (append-nil st.calls)
close-calls fs (fd ∷ fds) st =
    close-calls fs fds _ ∙ append_assoc st.calls (removed fd ∷ closed fd ∷ []) (closings fds)

-- The connections that are over, and no others, are out of all three maps, and have been ended.
abbrev pub Evicts : (fs : FileSystem) → ℕ → State fs → State fs → Type 0
Evicts fs now before after =
    ((fd : ℕ)
      → (Map.get after.read_buffers fd
          ≡ (if is_over now before.connect_times fd then none else Map.get before.read_buffers fd))
        × (Map.get after.write_buffers fd ≡ (
            if is_over now before.connect_times fd then none else Map.get before.write_buffers fd))
        × (Map.get after.connect_times fd ≡ (
            if is_over now before.connect_times fd then none else Map.get before.connect_times fd)))
    × ((fds : List ℕ) × (after.calls ≡ before.calls ++ closings fds)
        × ((fd : ℕ) → is_among fd fds ≡ is_over now before.connect_times fd))

-- If no connection stands twice among the times, the sweep takes a connection out of all three maps
-- exactly if it was accepted 31 seconds ago or earlier, changes no other entry, and makes no call
-- but to end the connections that it has taken out.
pub check_timeouts-Evicts :
    (fs : FileSystem) (now : ℕ) (st : State fs)
    → Distinct st.connect_times
    → Evicts fs now st (check_timeouts fs now st)
unfolding check_timeouts
check_timeouts-Evicts fs now st d =
    let fds = timed_out now st.connect_times in
    let among : (fd : ℕ) → is_among fd fds ≡ is_over now st.connect_times fd =
      λ fd. among-timed_out now st.connect_times fd d in
    (
      λ fd. (
        close-read fs fd fds st ∙ rw (among fd) refl,
        close-write fs fd fds st ∙ rw (among fd) refl,
        close-connect fs fd fds st ∙ rw (among fd) refl,
      ),
      (fds, close-calls fs fds st, among),
    )
