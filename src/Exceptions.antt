-- ===== src/Exceptions.antt =====
-- nameko/exceptions.py: making a value safe for JSON, and exceptions as data and back.
pub mod Safe
pub mod Wire
unfoldable pub use Safe.*
unfoldable pub use Wire.*
