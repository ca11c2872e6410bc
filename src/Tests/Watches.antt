-- ===== src/Tests/Watches.antt =====
-- The wrapper of epoll on a system of one interest list: src/epoll.rs.
use localserver.Base.{
  ℕ, ◌≡◌, refl, true, false, Option, some, inl, inr, List, [], ◌==◌, if◌then◌else◌, Bool-cases,
  ==_iff,
}
use localserver.Std.Map
use localserver.Std.Map.{get, insert, get-insert, get-remove}
use localserver.Std.Keys.{number_key}
use localserver.Epoll.{
  Mask, input_mask, output_mask, Op, ctl_add, ctl_mod, ctl_del, Kernel, Epoll, add, watch_write,
  remove,
}
use localserver.Epoll.Interest.{allowed, wanted, IsKernel, add-watch_write-remove}

abbrev pub Watched : Type 0
Watched = List (ℕ × Mask)

abbrev change : Watched → ℕ → Op → Watched
change s fd (ctl_add m) = insert s fd m
change s fd (ctl_mod m) = insert s fd m
change s fd ctl_del = Map.remove s fd

abbrev pub one_list : Kernel
one_list = record {
  System = Watched;
  epoll_create1 = λ s. (s, some 3);
  epoll_ctl =
      λ s ep op fd. if allowed op (Map.get s fd) then (change s fd op, true) else (s, false);
  epoll_wait = λ s ep n. (s, some []);
  close = λ s fd. Map.remove s fd;
  get_flags = λ s fd. some 0;
  set_flags_nonblocking = λ s fd flags. (s, true);
}

abbrev pub watched_for : Watched → ℕ → ℕ → Option Mask
watched_for s ep fd = Map.get s fd

get-change :
    (s : Watched) (fd : ℕ) (op : Op) (j : ℕ)
    → Map.get (change s fd op) j ≡ (if fd == j then wanted op else Map.get s j)
get-change s fd (ctl_add m) j = get-insert s fd j m
get-change s fd (ctl_mod m) j = get-insert s fd j m
get-change s fd ctl_del j = get-remove s fd j

pub one_list-IsKernel : IsKernel one_list watched_for
one_list-IsKernel = record {
  ctl_result = λ s ep op fd. elim (Bool-cases (allowed op (Map.get s fd))) [
    | inl yes_allowed ↦ rw yes_allowed refl
    | inr refused ↦ rw refused refl
  ];
  ctl_interest = λ s ep op fd j. elim (Bool-cases (allowed op (Map.get s fd))) [
    | inl yes_allowed ↦ rw yes_allowed (get-change s fd op j)
    | inr refused ↦ rw refused (elim (Bool-cases (fd == j)) [
      | inl same ↦ rw (same, (==_iff fd j).0 same) refl
      | inr other ↦ rw other refl
    ])
  ];
}

abbrev pub the_epoll : Epoll
the_epoll = record { fd = 3 }

abbrev added : Watched
added = (add one_list the_epoll 5 []).0

abbrev writing : Watched
writing = (watch_write one_list the_epoll 5 added).0

abbrev gone : Watched
gone = (remove one_list the_epoll 5 writing).0

add-watch_write-remove_example :
    ((add one_list the_epoll 5 []).1 ≡ true)
    × (watched_for added 3 5 ≡ some input_mask)
    × ((add one_list the_epoll 5 added).1 ≡ false)
    × ((watch_write one_list the_epoll 5 added).1 ≡ true)
    × (watched_for writing 3 5 ≡ some output_mask)
    × ((remove one_list the_epoll 5 writing).1 ≡ true)
    × ((remove one_list the_epoll 5 gone).1 ≡ false)
    × ((j : ℕ) → watched_for gone 3 j ≡ watched_for [] 3 j)
add-watch_write-remove_example =
    add-watch_write-remove one_list watched_for one_list-IsKernel the_epoll 5 []
      (unfold get in refl)
