-- ===== src/Text.antt =====
-- Go strings as byte lists, and the functions of package strings that the program calls.
mod Defs
mod Laws
pub mod Duration
pub mod Parse
pub mod Cut
pub mod Base64
pub mod Path
pub mod Address
unfoldable pub use Defs.*
pub use Laws.*
