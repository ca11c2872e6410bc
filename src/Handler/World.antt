-- ===== src/Handler/World.antt =====
-- What the handlers work on: the file system, the session store, the clock and the processes.
use localserver.Base.{ℕ, Bool, Option, List}
use localserver.Std.Text.{Text, Bytes}
use localserver.Session.{SessionStore}

-- An entry of a directory; `meta` says whether it is a directory, and its size.
pub record DirEntry : Type 0 where
  pub name : Bytes
  pub meta : Option (Bool × ℕ)

-- `std::fs`, on states of the disk; `none` and `false` are errors. Unreadable entries of a
-- directory are left out of `read_dir`.
pub record FileSystem : Type 1 where
  pub Disk : Type 0
  pub read : Disk → Text → Option Bytes
  pub is_dir : Disk → Text → Option Bool
  pub read_dir : Disk → Text → Option (List DirEntry)
  pub create_dir_all : Disk → Text → Disk × Bool
  pub write : Disk → Text → Bytes → Disk × Bool
  pub remove_file : Disk → Text → Disk × Bool

-- The readings of the clock and of the process's number that a request meets: `begun` when a
-- session is made, `now` when one is looked up; `nanos` of a system clock that is not before 1970,
-- where the `unwrap` on it would panic.
pub record Moment : Type 0 where
  pub begun : ℕ
  pub now : ℕ
  pub nanos : ℕ
  pub pid : ℕ

pub record World (fs : FileSystem) : Type 0 where
  pub disk : fs.Disk
  pub store : SessionStore
