-- ===== src/Epoll.antt =====
-- src/epoll.rs: the wrapper of the system's `epoll`. The calls of libc are the kernel's.
pub mod Interest
use localserver.Base.{ℕ, Bool, true, false, Option, none, some, List, [], ◌∷◌, if◌then◌else◌}

-- What a descriptor is watched for: `EPOLLIN`, `EPOLLOUT` and `EPOLLET`.
pub record Mask : Type 0 where
  pub input : Bool
  pub output : Bool
  pub edge : Bool

abbrev pub input_mask : Mask
input_mask = record { input = true; output = false; edge = true }

abbrev pub output_mask : Mask
output_mask = record { input = false; output = true; edge = true }

-- `EPOLL_CTL_ADD`, `EPOLL_CTL_MOD` and `EPOLL_CTL_DEL`.
pub data Op : Type 0 where
  ctl_add ctl_mod : Mask → Op
  ctl_del : Op

-- The calls of libc. A negative result, with `errno`, is `none` or `false`. An event is a
-- descriptor with what it is ready for.
pub record Kernel : Type 1 where
  pub System : Type 0
  pub epoll_create1 : System → System × Option ℕ
  pub epoll_ctl : System → ℕ → Op → ℕ → System × Bool
  pub epoll_wait : System → ℕ → ℕ → System × Option (List (ℕ × Mask))
  pub close : System → ℕ → System
  pub get_flags : System → ℕ → Option ℕ
  pub set_flags_nonblocking : System → ℕ → ℕ → System × Bool

abbrev pub max_events : ℕ
max_events = 128

pub record Epoll : Type 0 where
  pub fd : ℕ

module _ (k : Kernel) where
  unfoldable pub new : k.System → k.System × Option Epoll
  new s =
      let (after, result) = k.epoll_create1 s in
      (after, elim result [ none ↦ none | some fd ↦ some (record { fd = fd }) ])

  unfoldable pub add : Epoll → ℕ → k.System → k.System × Bool
  add e socket_fd s = k.epoll_ctl s e.fd (ctl_add input_mask) socket_fd

  unfoldable pub watch_write : Epoll → ℕ → k.System → k.System × Bool
  watch_write e socket_fd s = k.epoll_ctl s e.fd (ctl_mod output_mask) socket_fd

  unfoldable pub watch_read : Epoll → ℕ → k.System → k.System × Bool
  watch_read e socket_fd s = k.epoll_ctl s e.fd (ctl_mod input_mask) socket_fd

  unfoldable pub remove : Epoll → ℕ → k.System → k.System × Bool
  remove e socket_fd s = k.epoll_ctl s e.fd ctl_del socket_fd

  -- The events that are ready, of `max_events` at most.
  unfoldable pub wait : Epoll → k.System → k.System × Option (List (ℕ × Mask))
  wait e s = k.epoll_wait s e.fd max_events

  unfoldable pub drop : Epoll → k.System → k.System
  drop e s = k.close s e.fd

  unfoldable pub set_nonblocking : ℕ → k.System → k.System × Bool
  set_nonblocking fd s = elim (k.get_flags s fd) [
    | none ↦ (s, false)
    | some flags ↦ k.set_flags_nonblocking s fd flags
  ]
