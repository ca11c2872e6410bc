-- ===== src/Cgi/Run/Timeout.antt =====
-- A script is waited for ten seconds at most.
use localserver.Base.{
  ℕ, zero, suc, ◌+◌, ◌*◌, ◌≤◌, ◌<◌, ◌≡◌, refl, ap, ◌≢◌, is_empty, false, Option, none, some, arith,
  ltb, Bool-cases, Option-cases, inl, inr, done,
}
use localserver.Std.Text.{Text, Bytes, Unicode}
use localserver.Request.Message.{Request}
use localserver.Response.{Response, internal_server_error, error}
use localserver.Cgi.Run.{
  Poll, exited, running, failed, Output, Child, taken, Collected, collected, unreadable, held_open,
  collect, write_input, feed, Processes, timeout, wait_loop, rounds, wait_with_timeout, command_of,
  answer, run,
}

-- Each poll comes ten milliseconds after the one before it, or later.
abbrev pub Sleeps : Child → Type 0
Sleeps child = (n elapsed : ℕ) → child.polls n ≡ running elapsed → 10 * n ≤ elapsed

-- It is offered no body, or takes it.
abbrev pub TakesInput : Bytes → Child → Type 0
TakesInput body child = is_empty body ≡ false → child.input ≡ taken

-- What a script and the system do where each call that waits for them returns.
pub record Cooperates (body : Bytes) (child : Child) : Type 0 where
  pub sleeps : Sleeps child
  pub takes_input : TakesInput body child
  pub closes_output : child.output ≢ held_open

feed-done : (body : Bytes) (child : Child) → TakesInput body child → feed body child ≡ done child
unfolding feed
feed-done body child takes = elim (Bool-cases (is_empty body)) [
  | inl empty ↦ rw (feed, empty) refl
  | inr full ↦ rw (feed, full) (ap (λ i. write_input i child) (takes full))
]

collect-ends : (c : Collected) → c ≢ held_open → (o : Option Output) × (collect c ≡ done o)
unfolding collect
collect-ends (collected o) h = (some o, refl)
collect-ends unreadable h = (none, refl)
collect-ends held_open h = absurd (h refl)

module _ (child : Child) (sleeps : Sleeps child) where
  wait_loop-returns :
      child.output ≢ held_open
      → (fuel n : ℕ) → n ≤ 1001
      → 1001 < n + fuel
      → (o : Option Output) × (wait_loop fuel n child ≡ done o)
  unfolding wait_loop
  wait_loop-returns closes zero n low h = absurd (omega arith)
  wait_loop-returns closes (suc fuel) n low h =
      by_poll (child.polls n) refl (λ l. wait_loop-returns closes fuel (n + 1) l (omega arith))
    where
      by_poll :
          (p : Poll)
          → child.polls n ≡ p
          → (n + 1 ≤ 1001 → (o : Option Output) × (wait_loop fuel (n + 1) child ≡ done o))
          → (o : Option Output) × (wait_loop (suc fuel) n child ≡ done o)
      by_poll exited q ih =
          let (o, e) = collect-ends child.output closes in (o, rw (q, wait_loop, e) refl)
      by_poll failed q ih = (none, rw (q, wait_loop))
      by_poll (running elapsed) q ih = elim (Bool-cases (ltb timeout elapsed)) [
        | inl late ↦ (none, rw (q, wait_loop, late))
        | inr early ↦
            let slept = sleeps n elapsed q in
            let (o, later) = ih (ground arith) in (o, rw (q, wait_loop, early) later)
      ]

  wait_loop-hangs :
      ((n : ℕ) → (elapsed : ℕ) × (child.polls n ≡ running elapsed))
      → (fuel n : ℕ) → n ≤ 1001
      → 1001 < n + fuel
      → wait_loop fuel n child ≡ done none
  unfolding wait_loop
  wait_loop-hangs hangs zero n low h = absurd (omega arith)
  wait_loop-hangs hangs (suc fuel) n low h =
      let (elapsed, q) = hangs n in
      let slept = sleeps n elapsed q in
      elim (Bool-cases (ltb timeout elapsed)) [
        | inl late ↦ rw (q, wait_loop, late)
        | inr early ↦
            rw (q, wait_loop, early)
              (wait_loop-hangs hangs fuel (n + 1) (ground arith) (omega arith))
      ]

-- A script that takes the body, if there is one, and then never ends is answered with the error
-- page of status 500, if each poll of it comes at least ten milliseconds after the one before.
pub run-hangs :
    (u : Unicode) (system : Processes) (interpreter script_path : Text) (req : Request)
    (child : Child)
    → system.spawn (command_of interpreter script_path req) req.body ≡ some child
    → TakesInput req.body child
    → Sleeps child
    → ((n : ℕ) → (elapsed : ℕ) × (child.polls n ≡ running elapsed))
    → run u system interpreter script_path req ≡ done (error internal_server_error)
unfolding run wait_with_timeout answer
run-hangs u system interpreter script_path req child started takes sleeps hangs =
    rw
      (
        started,
        run,
        feed-done req.body child takes,
        wait_loop-hangs child sleeps hangs rounds 0 (omega arith) (omega arith),
      )
      refl

-- A run of a script gives a response, whatever else the script does, if it takes the body that it
-- is offered and leaves its output open to nobody else when it ends, and each poll of it comes at
-- least ten milliseconds after the one before.
pub run-responds :
    (u : Unicode) (system : Processes) (interpreter script_path : Text) (req : Request)
    → ((child : Child)
        → system.spawn (command_of interpreter script_path req) req.body ≡ some child
        → Cooperates req.body child)
    → (r : Response) × (run u system interpreter script_path req ≡ done r)
unfolding run wait_with_timeout
run-responds u system interpreter script_path req cooperates =
    elim (Option-cases (system.spawn (command_of interpreter script_path req) req.body)) [
      | inl e ↦ (error internal_server_error, rw (e, run))
      | inr (child, e) ↦
          let c = cooperates child e in
          let (o, waited) =
            wait_loop-returns child c.sleeps c.closes_output rounds 0 (omega arith) (omega arith) in
          (answer u o, rw (e, run, feed-done req.body child c.takes_input, waited) refl)
    ]
