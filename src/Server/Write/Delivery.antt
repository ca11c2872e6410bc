-- ===== src/Server/Write/Delivery.antt =====
-- The bytes that a connection's writes hand over.
use mathlib.Core.Path.{subst}
use localserver.Base.{
  ℕ, ◌+◌, ◌≡◌, refl, sym, ap, ◌∙◌, ◌==◌, none, some, List, [], ◌∷◌, ◌++◌, if◌then◌else◌, length,
  append_assoc, append-nil, Outcome, done, ◌>>=◌, >>=-eq-done, ==-self, ◌≢◌,
}
use localserver.Std.Text.{Bytes}
use localserver.Std.Map
use localserver.Std.Map.{get-insert, get-remove}
use localserver.Std.Keys.{number_key}
use localserver.Handler.World.{FileSystem}
use localserver.Server.{State, Call, registered, watched, removed, closed, shut, sent}
use localserver.Server.Write.Loop.{write_loop-splits}
use localserver.Server.Write.Taken.{SocketEvent, Events, quiet, goes_on, ends, write_loop-Takes}
use localserver.Server.Write.{
  Socket, Ending, complete, blocked, broken, write_loop, after_write, forget_time, handle_write,
  on_writable,
}

-- The bytes that the socket has taken, by the calls.
abbrev pub sent_to : ℕ → List Call → Bytes
sent_to fd [] = []
sent_to fd (sent j bytes ∷ calls) = (if j == fd then bytes else []) ++ sent_to fd calls
sent_to fd (registered _ ∷ calls) = sent_to fd calls
sent_to fd (watched _ ∷ calls) = sent_to fd calls
sent_to fd (removed _ ∷ calls) = sent_to fd calls
sent_to fd (closed _ ∷ calls) = sent_to fd calls
sent_to fd (shut _ ∷ calls) = sent_to fd calls

sent_to-append :
    (fd : ℕ) (before after : List Call)
    → sent_to fd (before ++ after) ≡ sent_to fd before ++ sent_to fd after
sent_to-append fd [] after = refl
sent_to-append fd (sent j bytes ∷ calls) after =
    rw (sent_to-append fd calls after) (sym (append_assoc (if j == fd then bytes else []) _ _))
sent_to-append fd (registered _ ∷ calls) after = sent_to-append fd calls after
sent_to-append fd (watched _ ∷ calls) after = sent_to-append fd calls after
sent_to-append fd (removed _ ∷ calls) after = sent_to-append fd calls after
sent_to-append fd (closed _ ∷ calls) after = sent_to-append fd calls after
sent_to-append fd (shut _ ∷ calls) after = sent_to-append fd calls after

module _ (fs : FileSystem) where
  -- What has become of the bytes that were to be written in events of these sockets: some are sent
  -- and the others wait, each event having ended at a write that would block; or all are sent and
  -- the connection is ended in order; or a write failed or took nothing, and it is dropped there.
  pub data Progress (fd : ℕ) (sockets : List Socket) (before after : State fs) (bytes : Bytes)
      : Type 0 where
    waiting :
        (out left : Bytes)
        → Events sockets bytes blocked out left
        → out ++ left ≡ bytes
        → sent_to fd after.calls ≡ sent_to fd before.calls ++ out
        → Map.get after.write_buffers fd ≡ some left
        → Progress fd sockets before after bytes
    finished :
        (calls : List Call)
        → Events sockets bytes complete bytes []
        → sent_to fd after.calls ≡ sent_to fd before.calls ++ bytes
        → after.calls ≡ calls ++ removed fd ∷ shut fd ∷ closed fd ∷ []
        → Map.get after.write_buffers fd ≡ none
        → Progress fd sockets before after bytes
    dropped :
        (calls : List Call) (out left : Bytes)
        → Events sockets bytes broken out left
        → out ++ left ≡ bytes
        → sent_to fd after.calls ≡ sent_to fd before.calls ++ out
        → after.calls ≡ calls ++ removed fd ∷ closed fd ∷ []
        → Map.get after.write_buffers fd ≡ none
        → Progress fd sockets before after bytes

  -- The calls of the socket with the bytes `out` and others that send nothing.
  sent_to-sent :
      (fd : ℕ) (calls : List Call) (out : Bytes) (more : List Call)
      → sent_to fd more ≡ []
      → sent_to fd ((calls ++ sent fd out ∷ []) ++ more) ≡ sent_to fd calls ++ out
  sent_to-sent fd calls out more silent =
      sent_to-append fd (calls ++ sent fd out ∷ []) more
      ∙ rw (silent, append-nil (sent_to fd (calls ++ sent fd out ∷ [])))
          (sent_to-append fd calls (sent fd out ∷ [])
            ∙ rw (==-self fd) (ap (sent_to fd calls ++◌) (append-nil out)))

  -- What an event leaves of a connection with bytes to write.
  abbrev Written : ℕ → Ending → Bytes → Bytes → State fs → State fs
  Written fd how out left st =
      forget_time fs fd
        (after_write fs fd how left (record st { calls = st.calls ++ sent fd out ∷ [] }))

  module _ (fd : ℕ) (st : State fs) (bytes : Bytes) where
    on_writable-Event :
        (socket : Socket) {after : State fs}
        → Map.get st.write_buffers fd ≡ some bytes
        → on_writable fs fd socket st ≡ done after
        → (how : Ending) × (out left : Bytes) × SocketEvent socket bytes how out left
          × (out ++ left ≡ bytes)
          × (how ≡ complete → left ≡ [])
          × (Written fd how out left st ≡ after)
    unfolding on_writable handle_write
    on_writable-Event socket {after} here e =
        let (mid, wrote, same) = >>=-eq-done (handle_write fs fd socket st) _ e in
        let ((how, out, left), looped, ended) =
          >>=-eq-done (write_loop socket (length bytes + 1) 0 bytes) _
            (rw (handle_write, here) at wrote) in
        let (split, end) = write_loop-splits socket (length bytes + 1) 0 bytes looped in
        let is_mid : after_write fs fd how left (record st { calls = st.calls ++ sent fd out ∷ [] })
            ≡ mid =
          cc in
        let is_after : forget_time fs fd mid ≡ after = cc in
        (
          how,
          out,
          left,
          write_loop-Takes socket (length bytes + 1) 0 bytes looped,
          split,
          end,
          ap (forget_time fs fd) is_mid ∙ is_after,
        )

    sent-Written :
        (how : Ending) (out left : Bytes)
        → sent_to fd (Written fd how out left st).calls ≡ sent_to fd st.calls ++ out
    unfolding after_write
    sent-Written complete out left = sent_to-sent fd st.calls out _ refl
    sent-Written blocked out left =
        sent_to-append fd st.calls _
        ∙ rw (==-self fd) (ap (sent_to fd st.calls ++◌) (append-nil out))
    sent-Written broken out left = sent_to-sent fd st.calls out _ refl

    waits-Written :
        (out left : Bytes) → Map.get (Written fd blocked out left st).write_buffers fd ≡ some left
    unfolding after_write
    waits-Written out left = get-insert st.write_buffers fd fd left ∙ rw (==-self fd) refl

    -- An event that ends the connection.
    over-Progress :
        (socket : Socket) (sockets : List Socket) (how : Ending) (out left : Bytes)
        → how ≢ blocked
        → SocketEvent socket bytes how out left
        → out ++ left ≡ bytes
        → (how ≡ complete → left ≡ [])
        → Progress fd (socket ∷ sockets) st (Written fd how out left st) bytes
          × (Map.get (Written fd how out left st).write_buffers fd ≡ none)
    unfolding after_write
    over-Progress socket sockets blocked out left over event split end = absurd (over refl)
    over-Progress socket sockets complete out left over event split end =
        let nothing = end refl in
        let all_sent : out ≡ bytes = sym (append-nil out) ∙ rw (sym nothing) split in
        let gone : Map.get (Written fd complete out left st).write_buffers fd ≡ none =
          get-remove st.write_buffers fd fd ∙ rw (==-self fd) refl in
        (
          finished (st.calls ++ sent fd out ∷ [])
              (ends
                (subst (λ x. SocketEvent socket bytes complete x []) all_sent
                  (subst (λ x. SocketEvent socket bytes complete out x) nothing event))
                (λ h. cc))
              (sent-Written complete out left ∙ ap (sent_to fd st.calls ++◌) all_sent) refl gone,
          gone,
        )
    over-Progress socket sockets broken out left over event split end =
        let gone : Map.get (Written fd broken out left st).write_buffers fd ≡ none =
          get-remove st.write_buffers fd fd ∙ rw (==-self fd) refl in
        (
          dropped (st.calls ++ sent fd out ∷ []) out left (ends event (λ h. cc)) split
              (sent-Written broken out left) refl gone,
          gone,
        )

  -- The events of a socket that can be written to, as long as there are bytes to write.
  unfoldable pub on_writables : ℕ → List Socket → State fs → Outcome (State fs)
  on_writables fd [] st = done st
  on_writables fd (socket ∷ sockets) st = elim (Map.get st.write_buffers fd) [
    | none ↦ done st
    | some _ ↦ (do after ← on_writable fs fd socket st; on_writables fd sockets after)
  ]

  on_writables-over :
      (fd : ℕ) (sockets : List Socket) (st : State fs)
      → Map.get st.write_buffers fd ≡ none
      → on_writables fd sockets st ≡ done st
  unfolding on_writables
  on_writables-over fd [] st gone = refl
  on_writables-over fd (socket ∷ sockets) st gone = rw (gone, on_writables)

  -- Later events, behind one that ended at a write that would block.
  module _ (fd : ℕ) (socket : Socket) (sockets : List Socket) {before mid after : State fs}
      (bytes out left : Bytes) (event : SocketEvent socket bytes blocked out left)
      (split : out ++ left ≡ bytes)
      (taken : sent_to fd mid.calls ≡ sent_to fd before.calls ++ out) where
    later-Progress :
        Progress fd sockets mid after left → Progress fd (socket ∷ sockets) before after bytes
    later-Progress (waiting o l d s t here) =
        waiting (out ++ o) l (goes_on event d) (append_assoc out o l ∙ rw s split)
          (t ∙ rw taken (append_assoc (sent_to fd before.calls) out o)) here
    later-Progress (finished calls d t end gone) =
        finished calls
          (subst (λ x. Events (socket ∷ sockets) bytes complete x []) split (goes_on event d))
          (t ∙ rw taken (append_assoc (sent_to fd before.calls) out left ∙ rw split refl)) end gone
    later-Progress (dropped calls o l d s t end gone) =
        dropped calls (out ++ o) l (goes_on event d) (append_assoc out o l ∙ rw s split)
          (t ∙ rw taken (append_assoc (sent_to fd before.calls) out o)) end gone

  -- Through any events of a socket with bytes to write.
  pub on_writables-Progress :
      (fd : ℕ) (sockets : List Socket) (st : State fs) (bytes : Bytes) {after : State fs}
      → Map.get st.write_buffers fd ≡ some bytes
      → on_writables fd sockets st ≡ done after
      → Progress fd sockets st after bytes
  unfolding on_writables
  on_writables-Progress fd [] st bytes {after} here e =
      let same : st ≡ after = cc in
      subst (λ x. Progress fd [] st x bytes) same
        (waiting [] bytes quiet refl (sym (append-nil (sent_to fd st.calls))) here)
  on_writables-Progress fd (socket ∷ sockets) st bytes {after} here e =
      let (mid, wrote, later) =
        >>=-eq-done (on_writable fs fd socket st) _ (rw (on_writables, here) at e) in
      let (how, out, left, event, split, end, is_mid) =
        on_writable-Event fd st bytes socket here wrote in
      let next = subst (λ x. on_writables fd sockets x ≡ done after) (sym is_mid) later in
      by_ending how out left event split end next
        (λ waits. on_writables-Progress fd sockets (Written fd how out left st) left waits next)
    where
      over :
          (how : Ending) (out left : Bytes)
          → how ≢ blocked
          → SocketEvent socket bytes how out left
          → out ++ left ≡ bytes
          → (how ≡ complete → left ≡ [])
          → on_writables fd sockets (Written fd how out left st) ≡ done after
          → Progress fd (socket ∷ sockets) st after bytes
      over how out left ended event split end next =
          let (p, gone) =
            over-Progress fd st bytes socket sockets how out left ended event split end in
          let over = on_writables-over fd sockets (Written fd how out left st) gone in
          let same : Written fd how out left st ≡ after = cc in
          subst (λ x. Progress fd (socket ∷ sockets) st x bytes) same p

      by_ending :
          (how : Ending) (out left : Bytes)
          → SocketEvent socket bytes how out left
          → out ++ left ≡ bytes
          → (how ≡ complete → left ≡ [])
          → on_writables fd sockets (Written fd how out left st) ≡ done after
          → (Map.get (Written fd how out left st).write_buffers fd ≡ some left
              → Progress fd sockets (Written fd how out left st) after left)
          → Progress fd (socket ∷ sockets) st after bytes
      by_ending blocked out left event split end next rest =
          later-Progress fd socket sockets bytes out left event split
            (sent-Written fd st bytes blocked out left) (rest (waits-Written fd st bytes out left))
      by_ending complete out left event split end next rest =
          over complete out left (λ h. cc) event split end next
      by_ending broken out left event split end next rest =
          over broken out left (λ h. cc) event split end next
