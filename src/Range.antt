-- ===== src/Range.antt =====
-- `Range<T>` of src/range.h, for an unsigned integer or a pointer of 64 bits.
pub mod Iterate
use givy.Base.{ℕ, ◌+◌, ◌-◌, ◌*◌, ◌%◌, ◌^◌, Bool, ◌&&◌, ltb, leb}

pub record Range : Type 0 where
  pub start_ : ℕ
  pub end_ : ℕ

abbrev pub range : ℕ → ℕ → Range
range start end = record { start_ = start; end_ = end }

-- `Range (n)`: from `T ()` on.
abbrev pub range_to : ℕ → Range
range_to n = range 0 n

abbrev pub range_from_offset : ℕ → ℕ → Range
range_from_offset start offset = range start ((start + offset) % 2 ^ 64)

abbrev pub first : Range → ℕ
first r = r.start_

abbrev pub last : Range → ℕ
last r = r.end_

abbrev pub contains : Range → ℕ → Bool
contains r t = leb r.start_ t && ltb t r.end_

abbrev pub size : Range → ℕ
size r = (r.end_ + 2 ^ 64 - r.start_) % 2 ^ 64

abbrev pub includes : Range → Range → Bool
includes r inner = leb r.start_ inner.start_ && leb inner.end_ r.end_

-- `operator*` and `operator+` with a number, on either side.
abbrev pub scale : Range → ℕ → Range
scale r u = range (r.start_ * u % 2 ^ 64) (r.end_ * u % 2 ^ 64)

abbrev pub shift : Range → ℕ → Range
shift r u = range ((r.start_ + u) % 2 ^ 64) ((r.end_ + u) % 2 ^ 64)
