-- ===== src/Std/Keys.antt =====
-- The keys of the server's maps: texts and numbers.
use localserver.Base.{ℕ, ◌==◌, ==_iff}
use localserver.Std.Map.{Key}
use localserver.Std.Text.{Text, text_eq, text_eq_iff}

instance abbrev pub text_key : Key Text
text_key = record { beq = text_eq; beq_iff = text_eq_iff }

instance abbrev pub number_key : Key ℕ
number_key = record { beq = ◌==◌; beq_iff = ==_iff }
