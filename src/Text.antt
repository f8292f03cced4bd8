-- ===== src/Text.antt =====
-- What the code uses of Go's strings, strconv, fmt and flag packages.
pub mod Strings
pub mod Numbers
pub mod Flags
pub mod NumbersLaws
pub mod FlagsLaws
pub mod StringsLaws
