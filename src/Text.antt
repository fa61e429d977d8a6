-- ===== src/Text.antt =====
-- Go's `string`, `strings`, `unicode` and `unicode/utf8`, as far as the program uses them.
-- A text is the list of its code points, as `for _, r := range s` reads it; a byte that is no part
-- of valid UTF-8 stands as a number from 0x110000 on, so that equal lists are equal byte strings.
-- The Unicode tables (which code points are letters, what the lower case of one is) are a record
-- with the facts of the Unicode standard that the proofs need; `ascii` is a value of it.
mod Defs
pub mod Fields
pub mod Suffix
pub mod Prefix
pub mod Trim
pub mod Equality
pub mod Case
pub mod Ascii
pub mod Runs
unfoldable pub use Defs.*
