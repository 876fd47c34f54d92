-- ===== src/Library/Tests.antt =====
-- A C library that counts its calls, and the uses of the theorems on src/givy.cpp with it.
use givy.Base.{ℕ, ◌+◌, arith, false, replicate, []}
use givy.Pointer.{Ptr}
use givy.Space.Example.{two_nodes}
use givy.SuperpageBlock.{make_superpage_block, no_header}
use givy.LocalHeap.{Sizes, new_heap}
use givy.Library.{Runtime, init}
use givy.Library.Modes.{Initialised, init-Initialised}

abbrev malloc : ℕ → ℕ × ℕ → Ptr × (ℕ × ℕ)
malloc size c = (65536, (c.0 + 1, c.1))

abbrev free : Ptr → ℕ × ℕ → ℕ × ℕ
free p c = (c.0, c.1 + 1)

abbrev sizes : Sizes
sizes = record { header_space_pages = 10; unused_block_size = 16; counter_bits = 16 }

abbrev before : Runtime (ℕ × ℕ)
before = record {
  inited = false;
  node = record {
    space = two_nodes;
    superpage_blocks = λ p. make_superpage_block 10 1 0 7 (replicate 512 no_header);
    small_blocks =
        λ p i. record { sb_sizeclass = 0; sb_nb_carved = 0; sb_nb_unused = 0; sb_unused = [] };
    heaps = λ k. new_heap;
  };
  libc = (0, 0);
}

init-Initialised_example :
    Initialised malloc free sizes 2 1 before (init malloc free sizes 2 1 before)
init-Initialised_example = init-Initialised malloc free sizes 2 1 before (omega arith)
