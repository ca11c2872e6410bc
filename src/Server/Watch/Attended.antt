-- ===== src/Server/Watch/Attended.antt =====
-- What the kernel watches a connection for, beside what the event loop holds for it.
use localserver.Base.{ℕ, ◌≡◌, ◌∙◌, ap, Option, none, some, List}
use localserver.Std.Text.{Bytes, Unicode}
use localserver.Std.Map
use localserver.Std.Keys.{number_key}
use localserver.Config.Data.{ServerConfig}
use localserver.Cgi.Run.{Processes}
use localserver.Handler.World.{FileSystem, World}
use localserver.Epoll.{Mask, input_mask, output_mask, Kernel, Epoll}
use localserver.Epoll.Interest.{IsKernel}
use localserver.Server.{State}
use localserver.Server.Rounds.{opened}
use localserver.Server.Watch.{watching, Phase, idle_phase, reading_phase, writing_phase}
use localserver.Server.Watch.Reach.{Reach, Reach-IsWatched}
use localserver.Server.Watch.Kernel.{make_calls, mask_of, Closes, make_calls-watching}

-- A connection that the kernel does not watch has no answer that waits; one that it watches for
-- input has a buffer, a time of connection and no answer; one that it watches for output has an
-- answer.
pub data Attended {fs : FileSystem} (fd : ℕ) (st : State fs) (mask : Option Mask) : Type 0 where
  unattended : mask ≡ none → Map.get st.write_buffers fd ≡ none → Attended fd st mask
  for_input :
      (bytes : Bytes) (t : ℕ)
      → mask ≡ some input_mask
      → Map.get st.read_buffers fd ≡ some bytes
      → Map.get st.write_buffers fd ≡ none
      → Map.get st.connect_times fd ≡ some t
      → Attended fd st mask
  for_output :
      (bytes : Bytes)
      → mask ≡ some output_mask
      → Map.get st.write_buffers fd ≡ some bytes
      → Attended fd st mask

Phase-Attended :
    {fs : FileSystem} (fd : ℕ) (st : State fs) (mask : Option Mask)
    → mask ≡ mask_of (watching fd st.calls)
    → Phase fd st
    → Attended fd st mask
Phase-Attended fd st mask e (idle_phase w b) = unattended (e ∙ ap mask_of w) b
Phase-Attended fd st mask e (reading_phase bytes t w r b c) =
    for_input bytes t (e ∙ ap mask_of w) r b c
Phase-Attended fd st mask e (writing_phase bytes w b) = for_output bytes (e ∙ ap mask_of w) b

module _ (u : Unicode) (fs : FileSystem) (system : Processes) (configs : List ServerConfig)
    (listener : ℕ) (k : Kernel) (e : Epoll) (interest : k.System → ℕ → ℕ → Option Mask) where
  -- In every state that rounds of the loop reach from its start, with its calls made of the kernel
  -- through `Epoll`: a connection that the kernel watches for output has an answer that waits; one
  -- that it watches for input has a buffer, a time of connection and no answer; and no answer waits
  -- for a descriptor that is not watched. This is of descriptors that are not watched at the start,
  -- as only the listener is. The kernel keeps its interest list as documented, reports descriptors
  -- once each that it watches, and gives new connections others.
  pub Reach-Attended :
      IsKernel k interest
      → Closes k interest
      → (w : World fs) (st : State fs) → Reach u fs system configs listener (opened fs w) st
      → (s : k.System) (fd : ℕ) → interest s e.fd fd ≡ none
      → Attended fd st (interest (make_calls k e st.calls s) e.fd fd)
  Reach-Attended law closes w st reached s fd new =
      Phase-Attended fd st _ (make_calls-watching k e interest law closes st.calls fd s new)
        ((Reach-IsWatched u fs system configs listener w reached).phase fd)
