-- ===== src/Config/Data.antt =====
-- src/config/mod.rs and src/config/errors.rs: the configuration's types.
use localserver.Base.{ℕ, Bool, Option, List}
use localserver.Std.Text.{Text}

pub data ConfigMethod : Type 0 where
  get post delete : ConfigMethod

pub record Cgi : Type 0 where
  pub extension : Text
  pub interpreter : Text

pub record Location : Type 0 where
  pub path : Text
  pub root : Text
  pub index : Option Text
  pub methods : List ConfigMethod
  pub autoindex : Bool
  pub redirect : Option Text
  pub cgi : Option Cgi

pub record ServerConfig : Type 0 where
  pub host : Text
  pub port : ℕ
  pub server_name : Option Text
  pub client_max_body_size : ℕ
  pub error_pages : List (ℕ × Text)
  pub locations : List Location

pub record Config : Type 0 where
  pub servers : List ServerConfig
