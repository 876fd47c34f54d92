-- ===== src/Bits.antt =====
-- Binary digits of the native numbers: the meaning of the machine words of bitmask.h.
mod Step
mod Digits
unfoldable pub use Digits.*
