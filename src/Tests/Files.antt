-- ===== src/Tests/Files.antt =====
-- The file handlers on a disk that is a dictionary: src/handler.rs.
use mathlib.Core.Option
use localserver.Base.{◌≡◌, refl, ◌∙◌, ap, true, false, none, some, List}
use localserver.Std.Text.{Text, Bytes, text_eq_self}
use localserver.Std.Map
use localserver.Std.Map.{get-insert, get-remove}
use localserver.Std.Keys.{text_key}
use localserver.Response.{}
use localserver.Handler.World.{FileSystem}
use localserver.Handler.Files.Stored.{IsFileSystem}
use localserver.Std.Text.{}

abbrev pub Drive : Type 0
Drive = List (Text × Bytes)

abbrev pub drive : FileSystem
drive = record {
  Disk = Drive;
  read = λ d path. Map.get d path;
  is_dir = λ d path. Option.map (λ _. false) (Map.get d path);
  read_dir = λ d path. none;
  create_dir_all = λ d path. (d, true);
  write = λ d path bytes. (Map.insert d path bytes, true);
  remove_file = λ d path. (Map.remove d path, true);
}

get-written :
    (d : Drive) (path : Text) (bytes : Bytes) → Map.get (Map.insert d path bytes) path ≡ some bytes
get-written d path bytes = get-insert d path path bytes ∙ rw (text_eq_self path) refl

get-removed : (d : Drive) (path : Text) → Map.get (Map.remove d path) path ≡ none
get-removed d path = get-remove d path path ∙ rw (text_eq_self path) refl

pub drive-IsFileSystem : IsFileSystem drive
drive-IsFileSystem = record {
  write_read = λ d path bytes _. get-written d path bytes;
  write_is_dir = λ d path bytes _. ap (Option.map (λ _. false)) (get-written d path bytes);
  remove_is_dir = λ d path _. ap (Option.map (λ _. false)) (get-removed d path);
}
