-- ===== src/Server/Watch/Received.antt =====
-- The phases while the bytes of a socket are taken in.
use localserver.Base.{
  ℕ, ◌≡◌, ◌≢◌, refl, ◌∙◌, ◌==◌, false, Option-cases, inl, inr, none, List, [], ◌∷◌, ◌++◌,
}
use localserver.Std.Text.{Bytes}
use localserver.Std.Map
use localserver.Std.Map.{insert, remove, get-insert, get-remove}
use localserver.Std.Keys.{number_key}
use localserver.Response.{}
use localserver.Cgi.Run.{}
use localserver.Handler.World.{FileSystem}
use localserver.Server.{State}
use localserver.Server.Read.{Incoming, receive}
use localserver.Server.Read.Steps.{joined, get-receive}
use localserver.Server.Watch.{
  idle, watching, Phase, idle_phase, reading_phase, writing_phase, Touches,
}

get-receive-other :
    (fd j : ℕ) (chunks : List Bytes) (buffers : List (ℕ × Bytes))
    → (fd == j) ≡ false
    → Map.get (receive fd chunks buffers) j ≡ Map.get buffers j
unfolding receive
get-receive-other fd j [] buffers e = refl
get-receive-other fd j (chunk ∷ chunks) buffers e = elim (Option-cases (Map.get buffers fd)) [
  | inl gone ↦ rw (receive, gone) (get-receive-other fd j chunks buffers e)
  | inr (old, here) ↦
      rw (receive, here)
        (get-receive-other fd j chunks (insert buffers fd (old ++ chunk)) e
          ∙ get-insert buffers fd j (old ++ chunk)
          ∙ rw e refl)
]

get-receive-none :
    (fd : ℕ) (chunks : List Bytes) (buffers : List (ℕ × Bytes))
    → Map.get buffers fd ≡ none
    → Map.get (receive fd chunks buffers) fd ≡ none
unfolding receive
get-receive-none fd [] buffers gone = gone
get-receive-none fd (chunk ∷ chunks) buffers gone =
    rw (receive, gone) (get-receive-none fd chunks buffers gone)

-- A descriptor that an event is for is watched, or has been given up since.
pub data Reported {fs : FileSystem} (fd : ℕ) (st : State fs) : Type 0 where
  in_use : watching fd st.calls ≢ idle → Reported fd st
  given_up : Map.get st.read_buffers fd ≡ none → Reported fd st

module _ {fs : FileSystem} (fd : ℕ) where
  unfoldable pub received : Incoming → State fs → State fs
  received incoming st = record st { read_buffers = receive fd incoming.chunks st.read_buffers }

  pub received-Touches :
      (incoming : Incoming) (st : State fs) → Touches fd st (received incoming st)
  unfolding received
  received-Touches incoming st = record {
    others = λ j e. record {
      same_watch = refl;
      same_read = get-receive-other fd j incoming.chunks st.read_buffers e;
      same_write = refl;
      same_time = refl;
    };
  }

  pub received-Phase :
      (incoming : Incoming) (st : State fs) → Phase fd st → Phase fd (received incoming st)
  unfolding received
  received-Phase incoming st (idle_phase w b) = idle_phase w b
  received-Phase incoming st (reading_phase bytes t w r b c) =
      reading_phase (bytes ++ joined incoming.chunks) t w
        (get-receive fd incoming.chunks st.read_buffers bytes r) b c
  received-Phase incoming st (writing_phase bytes w b) = writing_phase bytes w b

  pub received-Reported :
      (incoming : Incoming) (st : State fs) → Reported fd st → Reported fd (received incoming st)
  unfolding received
  received-Reported incoming st (in_use w) = in_use w
  received-Reported incoming st (given_up gone) =
      given_up (get-receive-none fd incoming.chunks st.read_buffers gone)
