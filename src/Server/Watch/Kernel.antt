-- ===== src/Server/Watch/Kernel.antt =====
-- The calls of the event loop, made of the kernel through src/epoll.rs.
use mathlib.Core.Path.{subst}
use localserver.Base.{
  ℕ, ◌≡◌, refl, sym, ◌∙◌, ◌==◌, ==_iff, Option, none, some, Bool-cases, inl, inr, List, [], ◌∷◌,
  if◌then◌else◌,
}
use localserver.Epoll.{
  Mask, input_mask, output_mask, Op, ctl_add, ctl_mod, ctl_del, Kernel, Epoll, add, watch_write,
  remove,
}
use localserver.Epoll.Interest.{IsKernel, allowed, wanted}
use localserver.Server.{Call, registered, watched, removed, closed, shut, sent}
use localserver.Server.Watch.{
  Watching, idle, reading, writing, to_reading, to_writing, after_call, after_calls, watching,
}

module _ (k : Kernel) (e : Epoll) where
  -- Writes and the shutdown of a socket do not concern epoll.
  unfoldable pub make_call : Call → k.System → k.System
  make_call (registered fd) s = (add k e fd s).0
  make_call (watched fd) s = (watch_write k e fd s).0
  make_call (removed fd) s = (remove k e fd s).0
  make_call (closed fd) s = k.close s fd
  make_call (shut fd) s = s
  make_call (sent fd bytes) s = s

  unfoldable pub make_calls : List Call → k.System → k.System
  unfolding make_call
  make_calls [] s = s
  make_calls (call ∷ calls) s = make_calls calls (make_call call s)

abbrev pub mask_of : Watching → Option Mask
mask_of idle = none
mask_of reading = some input_mask
mask_of writing = some output_mask

-- What is documented of `close`: it ends the registration of the descriptor, and no other.
abbrev pub Closes : (k : Kernel) → (k.System → ℕ → ℕ → Option Mask) → Type 0
Closes k interest =
    (s : k.System) (ep fd j : ℕ)
    → interest (k.close s fd) ep j ≡ (if fd == j then none else interest s ep j)

after_add :
    (w : Watching)
    → (if allowed (ctl_add input_mask) (mask_of w) then some input_mask else mask_of w)
      ≡ mask_of (to_reading w)
after_add idle = refl
after_add reading = refl
after_add writing = refl

after_mod :
    (w : Watching)
    → (if allowed (ctl_mod output_mask) (mask_of w) then some output_mask else mask_of w)
      ≡ mask_of (to_writing w)
after_mod idle = refl
after_mod reading = refl
after_mod writing = refl

after_del : (w : Watching) → (if allowed ctl_del (mask_of w) then none else mask_of w) ≡ none
after_del idle = refl
after_del reading = refl
after_del writing = refl

module _ (k : Kernel) (e : Epoll) (interest : k.System → ℕ → ℕ → Option Mask)
    (law : IsKernel k interest) (closes : Closes k interest) where
  -- A call of `epoll_ctl` for one descriptor, seen from another or from itself.
  ctl-mask :
      (op : Op) (fd j : ℕ) (s : k.System) (w next : Watching)
      → interest s e.fd j ≡ mask_of w
      → (if allowed op (mask_of w) then wanted op else mask_of w) ≡ mask_of next
      → interest (k.epoll_ctl s e.fd op fd).0 e.fd j ≡ mask_of (if fd == j then next else w)
  ctl-mask op fd j s w next before change = elim (Bool-cases (fd == j)) [
    | inl same ↦
        let at_fd : interest s e.fd fd ≡ mask_of w =
          subst (λ x. interest s e.fd x ≡ mask_of w) (sym ((==_iff fd j).0 same)) before in
        law.ctl_interest s e.fd op fd j ∙ rw (same, at_fd) change
    | inr other ↦ law.ctl_interest s e.fd op fd j ∙ rw other before
  ]

  make_call-mask :
      (call : Call) (j : ℕ) (s : k.System) (w : Watching)
      → interest s e.fd j ≡ mask_of w
      → interest (make_call k e call s) e.fd j ≡ mask_of (after_call j call w)
  unfolding make_call add watch_write remove
  make_call-mask (registered fd) j s w h =
      ctl-mask (ctl_add input_mask) fd j s w (to_reading w) h (after_add w)
  make_call-mask (watched fd) j s w h =
      ctl-mask (ctl_mod output_mask) fd j s w (to_writing w) h (after_mod w)
  make_call-mask (removed fd) j s w h = ctl-mask ctl_del fd j s w idle h (after_del w)
  make_call-mask (closed fd) j s w h = elim (Bool-cases (fd == j)) [
    | inl same ↦ closes s e.fd fd j ∙ rw same refl
    | inr other ↦ closes s e.fd fd j ∙ rw other h
  ]
  make_call-mask (shut fd) j s w h = h
  make_call-mask (sent fd bytes) j s w h = h

  make_calls-after_calls :
      (calls : List Call) (j : ℕ) (s : k.System) (w : Watching)
      → interest s e.fd j ≡ mask_of w
      → interest (make_calls k e calls s) e.fd j ≡ mask_of (after_calls j calls w)
  unfolding make_calls
  make_calls-after_calls [] j s w h = h
  make_calls-after_calls (call ∷ calls) j s w h =
      make_calls-after_calls calls j (make_call k e call s) (after_call j call w)
        (make_call-mask call j s w h)

  -- If no descriptor is watched at first, then behind any calls of the event loop, made through
  -- `Epoll`, the kernel watches each descriptor for what `watching` tells of the calls.
  pub make_calls-watching :
      (calls : List Call) (fd : ℕ) (s : k.System)
      → interest s e.fd fd ≡ none
      → interest (make_calls k e calls s) e.fd fd ≡ mask_of (watching fd calls)
  make_calls-watching calls fd s new = make_calls-after_calls calls fd s idle new
