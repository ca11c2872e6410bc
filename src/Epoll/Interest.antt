-- ===== src/Epoll/Interest.antt =====
-- The descriptors that are watched, as a dictionary.
use mathlib.Core.Path.{subst}
use localserver.Base.{
  ℕ, ◌≡◌, refl, sym, ◌∙◌, ==-self, ==_iff, Bool, true, false, not, Option, none, some, inl, inr,
  ◌==◌, if◌then◌else◌, Bool-cases,
}
use localserver.Epoll.{
  Mask, input_mask, output_mask, Op, ctl_add, ctl_mod, ctl_del, Kernel, Epoll, add, watch_write,
  remove,
}

-- What is documented of `epoll_ctl`, on an interest list: ADD fails on a descriptor that is there,
-- MOD and DEL on one that is not; a call that fails changes nothing.
abbrev pub has : Option Mask → Bool
has none = false
has (some m) = true

abbrev pub allowed : Op → Option Mask → Bool
allowed (ctl_add m) old = not (has old)
allowed (ctl_mod m) old = has old
allowed ctl_del old = has old

abbrev pub wanted : Op → Option Mask
wanted (ctl_add m) = some m
wanted (ctl_mod m) = some m
wanted ctl_del = none

pub record IsKernel (k : Kernel) (interest : k.System → ℕ → ℕ → Option Mask) : Type 0 where
  pub ctl_result :
      (s : k.System) (ep : ℕ) (op : Op) (fd : ℕ)
      → (k.epoll_ctl s ep op fd).1 ≡ allowed op (interest s ep fd)
  pub ctl_interest :
      (s : k.System) (ep : ℕ) (op : Op) (fd j : ℕ)
      → interest (k.epoll_ctl s ep op fd).0 ep j ≡ (
          if fd == j
          then if allowed op (interest s ep fd) then wanted op else interest s ep fd
          else interest s ep j)

module _ (k : Kernel) (interest : k.System → ℕ → ℕ → Option Mask) (law : IsKernel k interest)
    (e : Epoll) (fd : ℕ) (s : k.System) where
  -- The life of a connection's registration: a descriptor that is not watched can be added, but not
  -- twice; it can then be watched for writing, and removed, but not twice. While it is there it is
  -- watched for what was asked last, and afterwards every descriptor is watched as it was before.
  pub add-watch_write-remove :
      interest s e.fd fd ≡ none
      → ((add k e fd s).1 ≡ true)
        × (interest (add k e fd s).0 e.fd fd ≡ some input_mask)
        × ((add k e fd (add k e fd s).0).1 ≡ false)
        × ((watch_write k e fd (add k e fd s).0).1 ≡ true)
        × (interest (watch_write k e fd (add k e fd s).0).0 e.fd fd ≡ some output_mask)
        × ((remove k e fd (watch_write k e fd (add k e fd s).0).0).1 ≡ true)
        × ((remove k e fd (remove k e fd (watch_write k e fd (add k e fd s).0).0).0).1 ≡ false)
        × ((j : ℕ)
            → interest (remove k e fd (watch_write k e fd (add k e fd s).0).0).0 e.fd j
              ≡ interest s e.fd j)
  unfolding add watch_write remove
  add-watch_write-remove new =
      let s1 = (add k e fd s).0 in
      let s2 = (watch_write k e fd s1).0 in
      let s3 = (remove k e fd s2).0 in
      let at1 : interest s1 e.fd fd ≡ some input_mask =
        law.ctl_interest s e.fd (ctl_add input_mask) fd fd ∙ rw (==-self fd, new) refl in
      let at2 : interest s2 e.fd fd ≡ some output_mask =
        law.ctl_interest s1 e.fd (ctl_mod output_mask) fd fd ∙ rw (==-self fd, at1) refl in
      let at3 : interest s3 e.fd fd ≡ none =
        law.ctl_interest s2 e.fd ctl_del fd fd ∙ rw (==-self fd, at2) refl in
      (
        law.ctl_result s e.fd (ctl_add input_mask) fd ∙ rw new refl,
        at1,
        law.ctl_result s1 e.fd (ctl_add input_mask) fd ∙ rw at1 refl,
        law.ctl_result s1 e.fd (ctl_mod output_mask) fd ∙ rw at1 refl,
        at2,
        law.ctl_result s2 e.fd ctl_del fd ∙ rw at2 refl,
        law.ctl_result s3 e.fd ctl_del fd ∙ rw at3 refl,
        λ j. elim (Bool-cases (fd == j)) [
          | inl same ↦
              subst (λ x. interest s3 e.fd x ≡ interest s e.fd x) ((==_iff fd j).0 same)
                (at3 ∙ sym new)
          | inr other ↦
              law.ctl_interest s2 e.fd ctl_del fd j
              ∙ rw other (
                  law.ctl_interest s1 e.fd (ctl_mod output_mask) fd j
                  ∙ rw other (law.ctl_interest s e.fd (ctl_add input_mask) fd j ∙ rw other refl))
        ],
      )
