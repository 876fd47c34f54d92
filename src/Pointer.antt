-- ===== src/Pointer.antt =====
-- `Ptr` of src/pointer.h: the number of an address, with the arithmetic of uintptr_t (64 bits).
-- Comparison is that of the numbers.
use givy.Base.{ℕ, ◌+◌, ◌-◌, ◌%◌, ◌^◌, Bool, ◌==◌}
use givy.Math.{align, align_up}

abbrev pub Ptr : Type 0
Ptr = ℕ

abbrev pub add : Ptr → ℕ → Ptr
add p off = (p + off) % 2 ^ 64

abbrev pub sub : Ptr → ℕ → Ptr
sub p off = (p + 2 ^ 64 - off) % 2 ^ 64

abbrev pub ptr_align : Ptr → ℕ → Ptr
ptr_align p al = align p al

abbrev pub ptr_align_up : Ptr → ℕ → Ptr
ptr_align_up p al = align_up p al

abbrev pub is_aligned : Ptr → ℕ → Bool
is_aligned p al = p % al == 0
