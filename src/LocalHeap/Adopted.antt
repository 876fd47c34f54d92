-- ===== src/LocalHeap/Adopted.antt =====
-- Adoption in src/allocator.h makes every small page block of the block active, the full ones too.
use givy.Base.{ℕ, Option, none, some}
use givy.Pointer.{Ptr}
use givy.LocalHeap.{Node}

-- The address that an allocation returns.
abbrev pub address : Option ((Ptr × ℕ) × Node) → Option Ptr
address none = none
address (some r) = some r.0.0
