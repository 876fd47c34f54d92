-- ===== src/SmallBlocks/Live.antt =====
-- Taking and putting small blocks in src/allocator.h, against the blocks that are in use.
use native.Mathlib.Nat.{mod-eq_of_lt, mul-le-mul_left, add-mod_right, add-mul-mod_self_left}
use mathlib.Core.Path.{subst}
use givy.Base.{
  ℕ, suc, ◌+◌, ◌-◌, ◌*◌, ◌%◌, ◌^◌, ◌≤◌, ◌<◌, ◌≡◌, refl, sym, ◌∙◌, arith, List, [], ◌∷◌, length,
}
use givy.Pointer.{Ptr, add}
use givy.Math.{align}
use givy.Math.Laws.{align_lem}
use givy.SizeClass.{Info}
use givy.SmallBlocks.{
  SmallBlocks, available_small_blocks, configure_small_blocks, take_small_block, put_small_block,
}
use givy.SmallBlocks.Laws.{
  count-without, length-without, without, count, blocks, same_block, count-blocks_outside,
  count-blocks_once, count-blocks_member,
}

-- The page block lies in the address space at a multiple of the block size, and the counters hold
-- its number of blocks.
pub record IsPlaced (counter_bits : ℕ) (page_block : Ptr) (info : Info) : Type 0 where
  pub positive : 0 < info.block_size
  pub aligned : page_block % info.block_size ≡ 0
  pub fits : page_block + info.block_size * (info.nb_blocks + 1) < 2 ^ 64
  pub counted : info.nb_blocks < 2 ^ counter_bits

-- `live` are the blocks in use: with the unused ones they are the carved ones, each once.
pub record IsValid (page_block : Ptr) (info : Info) (s : SmallBlocks) (live : List Ptr)
    : Type 0 where
  pub unused_counted : s.sb_nb_unused ≡ length s.sb_unused
  pub within : s.sb_nb_carved ≤ info.nb_blocks
  pub all_counted : s.sb_nb_unused + length live ≡ s.sb_nb_carved
  pub partition :
      (a : ℕ)
      → count a s.sb_unused + count a live
        ≡ count a (blocks page_block info.block_size s.sb_nb_carved)

-- A block taken while `live` were in use: it was not in use, starts at a multiple of the block
-- size, lies inside the page block, and is in use afterwards.
pub record Taken (page_block : Ptr) (info : Info) (live : List Ptr) (r : Ptr × SmallBlocks)
    : Type 0 where
  pub valid : IsValid page_block info r.1 (r.0 ∷ live)
  pub fresh : count r.0 live ≡ 0
  pub aligned : r.0 % info.block_size ≡ 0
  pub behind : page_block ≤ r.0
  pub inside : r.0 + info.block_size ≤ page_block + info.block_size * info.nb_blocks

decrement :
    (counter_bits n : ℕ)
    → 0 < n
    → n < 2 ^ counter_bits
    → (n + 2 ^ counter_bits - 1) % 2 ^ counter_bits ≡ n - 1
decrement counter_bits n pos lt =
    let e : n + 2 ^ counter_bits - 1 ≡ n - 1 + 2 ^ counter_bits = omega arith in
    rw e (add-mod_right (n - 1) (2 ^ counter_bits) ∙ mod-eq_of_lt (omega arith))

module _ (counter_bits : ℕ) (page_block : Ptr) (info : Info)
    (placed : IsPlaced counter_bits page_block info) where
  pub configure-IsValid : IsValid page_block info (configure_small_blocks info) []
  configure-IsValid = record {
    unused_counted = refl;
    within = omega arith;
    all_counted = refl;
    partition = λ a. refl;
  }

  abbrev carved_only : ℕ → ℕ → ℕ → SmallBlocks
  carved_only c carved n = record {
    sb_sizeclass = c;
    sb_nb_carved = carved;
    sb_nb_unused = n;
    sb_unused = [];
  }

  take_small_block_from :
      (c carved n : ℕ) (l : List Ptr) (live : List Ptr)
      → IsValid page_block info
          (record { sb_sizeclass = c; sb_nb_carved = carved; sb_nb_unused = n; sb_unused = l })
          live
      → 0 < n + (info.nb_blocks - carved)
      → Taken page_block info live (
          take_small_block counter_bits page_block
            (record { sb_sizeclass = c; sb_nb_carved = carved; sb_nb_unused = n; sb_unused = l })
            info)
  unfolding take_small_block
  take_small_block_from c carved n (p ∷ rest) live v pos =
      let once = count-blocks_once page_block info.block_size carved p placed.positive in
      let part = v.partition p in
      let here : count p (p ∷ rest) ≡ suc (count p rest) = ground arith in
      let member =
        count-blocks_member page_block info.block_size carved p placed.positive placed.aligned
          (omega arith) in
      let bound = mul-le-mul_left info.block_size v.within in
      let less : n - 1 ≡ (n + 2 ^ counter_bits - 1) % 2 ^ counter_bits = sym (
        decrement counter_bits n (omega (arith, v.unused_counted))
          (omega (arith, v.within, v.all_counted, placed.counted))) in
      record {
        valid = record {
          unused_counted = omega (arith, v.unused_counted);
          within = v.within;
          all_counted = omega (arith, v.all_counted, v.unused_counted);
          partition = λ a. let q = v.partition a in omega arith;
        };
        fresh = omega arith;
        aligned = member.0;
        behind = member.1;
        inside = omega (arith, member, bound);
      }
  take_small_block_from c carved n [] live v pos =
      let more : carved < info.nb_blocks = omega (arith, v.unused_counted) in
      let bound : info.block_size * suc carved ≤ info.block_size * info.nb_blocks =
        mul-le-mul_left info.block_size more in
      let step : info.block_size * suc carved ≡ info.block_size * carved + info.block_size =
        grind arith in
      let room : info.block_size * (info.nb_blocks + 1)
          ≡ info.block_size * info.nb_blocks + info.block_size =
        grind arith in
      let place : page_block + info.block_size * carved
          ≡ add page_block (info.block_size * carved) =
        sym (mod-eq_of_lt (omega (arith, bound, step, room, placed.fits))) in
      let count_up : suc carved ≡ (carved + 1) % 2 ^ counter_bits = omega (
        arith,
        mod-eq_of_lt {n = carved + 1} {m = 2 ^ counter_bits} (omega (arith, more, placed.counted)),
      ) in
      let outside =
        count-blocks_outside page_block info.block_size carved
          (page_block + info.block_size * carved) (omega arith) placed.positive in
      let aligned' : (page_block + info.block_size * carved) % info.block_size ≡ 0 =
        add-mul-mod_self_left page_block info.block_size carved ∙ placed.aligned in
      subst (λ a. Taken page_block info live (a, carved_only c ((carved + 1) % 2 ^ counter_bits) n))
        place
        (subst
          (λ k.
            Taken page_block info live (page_block + info.block_size * carved, carved_only c k n))
          count_up
          (record {
            valid = record {
              unused_counted = v.unused_counted;
              within = more;
              all_counted = omega (arith, v.all_counted);
              partition = λ a. let q = v.partition a in omega arith;
            };
            fresh = omega (arith, outside, v.partition (page_block + info.block_size * carved));
            aligned = aligned';
            behind = omega arith;
            inside = omega (arith, bound, step);
          }))

  -- While a block is available, taking one keeps the invariant with the block among those in use.
  -- It was not in use, starts at a multiple of the block size, and lies inside the page block.
  pub take_small_block-Taken :
      (s : SmallBlocks) (live : List Ptr)
      → IsValid page_block info s live
      → 0 < available_small_blocks s info
      → Taken page_block info live (take_small_block counter_bits page_block s info)
  take_small_block-Taken s live v pos =
      take_small_block_from s.sb_sizeclass s.sb_nb_carved s.sb_nb_unused s.sb_unused live v pos

  -- The blocks available are those of the page block that are not in use.
  pub available_small_blocks_lem :
      (s : SmallBlocks) (live : List Ptr)
      → IsValid page_block info s live
      → available_small_blocks s info + length live ≡ info.nb_blocks
  available_small_blocks_lem s live v = omega (arith, v.within, v.all_counted)

  -- Putting back any address inside a block in use keeps the invariant, with exactly that block no
  -- longer in use, and makes one more block available.
  pub put_small_block-IsValid :
      (s : SmallBlocks) (live : List Ptr) (b p : Ptr)
      → IsValid page_block info s live
      → 0 < count b live
      → b ≤ p
      → p < b + info.block_size
      → IsValid page_block info (put_small_block counter_bits page_block s p info) (without b live)
        × (available_small_blocks (put_small_block counter_bits page_block s p info) info
            ≡ available_small_blocks s info + 1)
  unfolding put_small_block
  put_small_block-IsValid s live b p v used le lt =
      let part = v.partition b in
      let member =
        count-blocks_member page_block info.block_size s.sb_nb_carved b placed.positive
          placed.aligned (omega arith) in
      let bound = mul-le-mul_left info.block_size v.within in
      let room : info.block_size * (info.nb_blocks + 1)
          ≡ info.block_size * info.nb_blocks + info.block_size =
        grind arith in
      let al =
        align_lem p info.block_size placed.positive
          (omega (arith, member, bound, room, placed.fits)) in
      let found : b ≡ align p info.block_size =
        same_block b (align p info.block_size) info.block_size p member.0 al.3 le lt al.4 al.5 in
      let shorter = length-without b live used in
      let count_up : s.sb_nb_unused + 1 ≡ (s.sb_nb_unused + 1) % 2 ^ counter_bits =
        sym (mod-eq_of_lt (omega (arith, shorter, v.within, v.all_counted, placed.counted))) in
      subst
        (λ k.
          IsValid page_block info
            (record s { sb_nb_unused = k; sb_unused = align p info.block_size ∷ s.sb_unused })
            (without b live)
          × (k + (info.nb_blocks - s.sb_nb_carved) ≡ available_small_blocks s info + 1))
        count_up
        (subst
          (λ k.
            IsValid page_block info
              (record s { sb_nb_unused = s.sb_nb_unused + 1; sb_unused = k ∷ s.sb_unused })
              (without b live)
            × (s.sb_nb_unused + 1 + (info.nb_blocks - s.sb_nb_carved)
                ≡ available_small_blocks s info + 1))
          found
          (
            record {
              unused_counted = omega (arith, v.unused_counted);
              within = v.within;
              all_counted = omega (arith, v.all_counted, shorter);
              partition = λ a. omega (arith, v.partition a, count-without a b live used);
            },
            omega arith,
          ))
