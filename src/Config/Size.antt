-- ===== src/Config/Size.antt =====
-- src/config/mod.rs: `parse_body_size`.
use mathlib.Core.Option
use localserver.Base.{ℕ, ◌*◌, ◌%◌, Option, none, some}
use localserver.Std.Text.{Text, chars, trim, strip_suffix, Unicode, to_lowercase}
use localserver.Std.Number.{from_str_radix, usize_bound}

unfoldable pub parse_usize : Text → Option ℕ
parse_usize = from_str_radix 10 usize_bound

-- The product wraps in a release build.
unfoldable pub parse_body_size : Unicode → Text → Option ℕ
unfolding parse_usize
parse_body_size u text =
    let s = to_lowercase u text in
    elim (strip_suffix s (chars "mb")) [
      | some n ↦ Option.map (λ k. k * 1024 * 1024 % usize_bound) (parse_usize (trim n))
      | none ↦ elim (strip_suffix s (chars "kb")) [
        | some n ↦ Option.map (λ k. k * 1024 % usize_bound) (parse_usize (trim n))
        | none ↦ parse_usize (trim s)
      ]
    ]
