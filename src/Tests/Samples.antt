-- ===== src/Tests/Samples.antt =====
-- Data that the tests share.
use localserver.Server.Write.{Socket, accepted, would_block}
use localserver.Server.Write.Ends.{IsHonest}
use localserver.Base.{ℕ, zero, suc, ◌-◌, ◌≤◌, ◌≡◌, arith, none, [], ◌∷◌, false}
use localserver.Std.Text.{Text, Unicode, chars}
use localserver.Config.Data.{Location, ServerConfig}
use localserver.Handler.World.{FileSystem, World, Moment}
use localserver.Cgi.Run.{Processes}
use localserver.Handler.Build.Answers.{AllCooperate}
use localserver.Session.{empty_store}

-- Tables for texts in ASCII: other characters stay as they are.
abbrev pub ascii_only : Unicode
ascii_only = record { lower = λ before c after. c ∷ [] }

abbrev pub place : Text → Text → Location
place path root = record {
  path = path;
  root = root;
  index = none;
  methods = [];
  autoindex = false;
  redirect = none;
  cgi = none;
}

abbrev pub site : ServerConfig
site = record {
  host = chars "127.0.0.1";
  port = 8080;
  server_name = none;
  client_max_body_size = 1024;
  error_pages = [];
  locations = place (chars "/") (chars "./www") ∷ place (chars "/files") (chars "./files") ∷ [];
}

-- A disk with no files on it, that takes none.
abbrev pub no_files : FileSystem
no_files = record {
  Disk = Unit;
  read = λ d path. none;
  is_dir = λ d path. none;
  read_dir = λ d path. none;
  create_dir_all = λ d path. (d, false);
  write = λ d path bytes. (d, false);
  remove_file = λ d path. (d, false);
}

abbrev pub empty_world : World no_files
empty_world = record { disk = tt; store = empty_store }

abbrev pub no_processes : Processes
no_processes = record { spawn = λ command input. none }

pub no_processes-AllCooperate : AllCooperate no_processes
no_processes-AllCooperate command input child e = cc

abbrev pub dawn : Moment
dawn = record { begun = 0; now = 0; nanos = 0; pid = 1 }

-- A socket that takes all but two bytes and then no more, and one that takes all.
abbrev pub slow : Socket
slow zero offered = accepted (offered - 2)
slow (suc n) offered = would_block

abbrev pub quick : Socket
quick n offered = accepted offered

pub slow-IsHonest : IsHonest slow
slow-IsHonest = record { takes_no_more = taken }
  where
    taken : (i offered n : ℕ) → slow i offered ≡ accepted n → n ≤ offered
    taken zero offered n e = let same : offered - 2 ≡ n = cc in omega (arith, same)
    taken (suc i) offered n e = cc

pub quick-IsHonest : IsHonest quick
quick-IsHonest = record {
  takes_no_more = λ i offered n e. let same : offered ≡ n = cc in omega (arith, same);
}
