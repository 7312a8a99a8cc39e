-- ===== src/Base/Text.antt =====
-- Go's `strings` functions on texts, and their laws.
mod Defs
mod Laws
unfoldable pub use Defs.{
  is_space, trim_left, trim_right, trim_space, cut, codes, same_codes, lower_code, to_lower, itoa,
  utf8,
}
pub use Defs.{Cut, concat, trim_right_cons}
pub use Laws.*
