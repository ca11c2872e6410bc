-- ===== src/Server/Write.antt =====
-- src/server.rs: `handle_write`.
pub mod Loop
pub mod Taken
pub mod Delivery
pub mod Ends
pub mod Stall
use localserver.Base.{
  ℕ, zero, suc, ◌+◌, Option, none, some, List, [], ◌∷◌, ◌++◌, if◌then◌else◌, leb, length, take,
  drop, Outcome, done, panicked, out_of_fuel, ◌>>=◌,
}
use localserver.Std.Text.{Bytes}
use localserver.Std.Map
use localserver.Std.Map.{insert, remove}
use localserver.Std.Keys.{number_key}
use localserver.Handler.World.{FileSystem}
use localserver.Server.{State, Call, removed, closed, shut, sent}

-- What a write to a socket says.
pub data Wrote : Type 0 where
  accepted : ℕ → Wrote
  would_block failed : Wrote

-- The writes to a socket, by their number and how many bytes are offered.
abbrev pub Socket : Type 0
Socket = ℕ → ℕ → Wrote

-- How the loop of writes ends.
pub data Ending : Type 0 where
  complete blocked broken : Ending

-- `drain(..n)`.
unfoldable pub drain : ℕ → Bytes → Outcome Bytes
drain n bytes = if leb n (length bytes) then done (drop n bytes) else panicked

-- One write for each unit of fuel, from the write `i` on: how it ends, the bytes that the socket
-- has taken and those that are left.
unfoldable pub write_loop : Socket → ℕ → ℕ → Bytes → Outcome (Ending × Bytes × Bytes)
unfolding drain
write_loop socket zero i bytes = out_of_fuel
write_loop socket (suc fuel) i [] = done (complete, [], [])
write_loop socket (suc fuel) i (b ∷ bytes) = elim (socket i (length (b ∷ bytes))) [
  | would_block ↦ done (blocked, [], b ∷ bytes)
  | failed ↦ done (broken, [], b ∷ bytes)
  | accepted zero ↦ done (broken, [], b ∷ bytes)
  | accepted (suc n) ↦ (do
    rest ← drain (suc n) (b ∷ bytes)
    (how, out, left) ← write_loop socket fuel (i + 1) rest
    done (how, take (suc n) (b ∷ bytes) ++ out, left))
]

module _ (fs : FileSystem) where
  unfoldable pub finish_write : ℕ → State fs → State fs
  finish_write fd st = record st {
    write_buffers = remove st.write_buffers fd;
    calls = st.calls ++ removed fd ∷ shut fd ∷ closed fd ∷ [];
  }

  unfoldable pub after_write : ℕ → Ending → Bytes → State fs → State fs
  unfolding finish_write
  after_write fd complete left st = finish_write fd st
  after_write fd blocked left st = record st { write_buffers = insert st.write_buffers fd left }
  after_write fd broken left st = record st {
    write_buffers = remove st.write_buffers fd;
    calls = st.calls ++ removed fd ∷ closed fd ∷ [];
  }

  -- A write takes a byte or more, or ends the loop, so a write for each byte is enough.
  unfoldable pub handle_write : ℕ → Socket → State fs → Outcome (State fs)
  unfolding finish_write after_write write_loop
  handle_write fd socket st = elim (Map.get st.write_buffers fd) [
    | none ↦ done (finish_write fd st)
    | some bytes ↦ (do
      (how, out, left) ← write_loop socket (length bytes + 1) 0 bytes
      done (after_write fd how left (record st { calls = st.calls ++ sent fd out ∷ [] })))
  ]

  abbrev pub forget_time : ℕ → State fs → State fs
  forget_time fd st = record st { connect_times = remove st.connect_times fd }

  -- The event of a socket that can be written to.
  unfoldable pub on_writable : ℕ → Socket → State fs → Outcome (State fs)
  unfolding handle_write
  on_writable fd socket st = do after ← handle_write fd socket st; done (forget_time fd after)
