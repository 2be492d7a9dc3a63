-- ===== src/Text.antt =====
-- Go's `string` and the parts of package strings that the program uses: a text is its bytes.
mod Defs
pub mod Base64
pub mod Decimal
pub mod Hex
pub mod Order
pub mod Path
pub mod Plain
pub mod Saturated
pub mod Space
pub mod Split
pub use Defs.{Text, text_eq_iff, text_eq_refl, text_eq_sound, strip_prefix-append}
unfoldable pub use Defs.{utf8, str, text_eq, is_empty, strip_prefix, join}
