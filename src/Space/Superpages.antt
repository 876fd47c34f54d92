-- ===== src/Space/Superpages.antt =====
-- Reserving superpages in src/gas_space.h, and finding them again.
use mathlib.Core.Path.{ap₂}
use givy.Base.{
  ℕ, ◌+◌, ◌*◌, ◌%◌, ◌^◌, ◌≤◌, ◌<◌, ◌≡◌, refl, arith, ap, ◌∙◌, List, [], ◌∷◌, Option, none, some,
}
use givy.Pointer.{Ptr}
use givy.Tracker.{Tracker, word_bits, load, get_sequence_start_num, release}
use givy.Tracker.Sequences.{HasCells}
use givy.Tracker.Ranges.{bit_at}
use givy.Tracker.Acquire.{Answer, acquired, oom, out_of_fuel, acquire}
use givy.Tracker.RoundTrip.{IsTidy, Grant, granted, refused, acquire-Grant}
use givy.Space.{
  Space, VmemCall, map_checked, superpage_size, superpage, superpage_num,
  reserve_local_superpage_sequence, release_superpage_sequence, superpage_sequence_start,
}
use givy.Space.Laws.{IsLaidOut}

-- A space whose tracker has a place for each superpage, in words of 64 bits, and is tidy.
pub record IsReady (s : Space) (cells : ℕ) : Type 0 where
  pub laid_out : IsLaidOut s
  pub cells_fit : HasCells cells s.superpage_tracker
  pub words : (j : ℕ) → load s.superpage_tracker.mapping_table j < 2 ^ 64
  pub tidy : IsTidy s.superpage_tracker
  pub room : s.superpage_by_node * s.nb_node ≤ word_bits * cells
  pub small : cells < 2 ^ 57

-- The result of a reservation of `nb` superpages: a block of the local interval, mapped by one
-- call, from each address of which its first address is found again; or the tracker is out of memory
-- for exactly this request.
pub data Reservation (s : Space) (nb : ℕ) : Option (Ptr × Space × List VmemCall) → Type 0 where
  block :
      {base : Ptr} {s' : Space}
      → s.local_interval.start_ ≤ base
      → base + superpage_size * nb ≤ s.local_interval.end_
      → base % superpage_size ≡ 0
      → ((p : Ptr)
          → base ≤ p
          → p < base + superpage_size * nb
          → superpage_sequence_start s' p ≡ some base)
      → ((m : ℕ)
          → bit_at (release_superpage_sequence s' base nb).0.superpage_tracker.mapping_table m
            ≡ bit_at s.superpage_tracker.mapping_table m)
      → Reservation s nb (some (base, s', map_checked base (superpage_size * nb) ∷ []))
  no_memory :
      acquire s.superpage_tracker nb s.local_interval_sp.start_ s.local_interval_sp.end_
        ≡ oom s.superpage_tracker
      → Reservation s nb none

superpage_lem :
    (s : Space) (n : ℕ)
    → IsLaidOut s
    → n ≤ s.superpage_by_node * s.nb_node
    → superpage s n ≡ s.gas_interval.start_ + superpage_size * n
unfolding superpage
superpage_lem s n h le = omega (arith, h.gas_end, h.fits)

num_between :
    (s : Space) (n nb p : ℕ)
    → IsLaidOut s
    → n + nb ≤ s.superpage_by_node * s.nb_node
    → superpage s n ≤ p
    → p < superpage s n + superpage_size * nb
    → (n ≤ superpage_num s p) × (superpage_num s p < n + nb)
unfolding superpage_num
num_between s n nb p h le lo hi =
    omega (arith, superpage_lem s n h (omega arith), h.gas_end, h.fits)

start_found :
    (s : Space) (t : Tracker) (n p : ℕ)
    → get_sequence_start_num t (superpage_num s p) ≡ some n
    → superpage_sequence_start (record s { superpage_tracker = t }) p ≡ some (superpage s n)
unfolding superpage_sequence_start superpage_num superpage
start_found s t n p e =
    ap (λ (r : Option ℕ). elim r [ some k ↦ some (superpage s k) | none ↦ none ]) e

released :
    (s : Space) (t : Tracker) (n nb : ℕ)
    → IsLaidOut s
    → n + nb ≤ s.superpage_by_node * s.nb_node
    → 0 < nb
    → (release_superpage_sequence
        (record s { superpage_tracker = t })
        (superpage s n)
        nb).0.superpage_tracker
      ≡ release t n (n + nb)
unfolding release_superpage_sequence superpage_num
released s t n nb h le pos =
    ap₂ (λ x y. release t x y) (omega (arith, base, h.gas_end, h.fits))
      (omega (arith, base, h.gas_end, h.fits))
  where
    base : superpage s n ≡ s.gas_interval.start_ + superpage_size * n
    base = superpage_lem s n h (omega arith)

-- Reserving two superpages or more, and fewer than 2 ^ 63, in a space that is ready ends the program
-- because `acquire` refuses as many superpages of the local node, or returns a block of that size, aligned to superpages, of the local interval, and maps exactly it.
-- `superpage_sequence_start` then gives the block's address for every address in it, and releasing
-- the block makes the mapping table as it was.
pub reserve_local_superpage_sequence-Reservation :
    (s : Space) (cells superpage_nb : ℕ)
    → IsReady s cells
    → 1 < superpage_nb
    → superpage_nb < 2 ^ 63
    → Reservation s superpage_nb (reserve_local_superpage_sequence s superpage_nb)
unfolding reserve_local_superpage_sequence
reserve_local_superpage_sequence-Reservation s cells superpage_nb ready several fits = go _ refl (
    acquire-Grant s.superpage_tracker cells superpage_nb s.local_interval_sp.start_
      s.local_interval_sp.end_ ready.cells_fit ready.words ready.tidy several fits
      (omega (arith, ready.room, ready.laid_out.local_sp_in)) ready.small)
  where
    go :
        (a : Answer)
        → acquire s.superpage_tracker superpage_nb s.local_interval_sp.start_
            s.local_interval_sp.end_
          ≡ a
        → Grant s.superpage_tracker superpage_nb s.local_interval_sp.start_ s.local_interval_sp.end_
            a
        → Reservation s superpage_nb (elim a [
          | acquired n t ↦
              let base = superpage s n in
              some (
                base,
                record s { superpage_tracker = t },
                map_checked base (superpage_size * superpage_nb % 2 ^ 64) ∷ [],
              )
          | oom t ↦ none
          | out_of_fuel ↦ none
        ])
    go a e (granted {n} {s'} lo hi tidy holds starts back) =
        let base = superpage_lem s n ready.laid_out (omega (arith, ready.laid_out.local_sp_in)) in
        let size : superpage_size * superpage_nb % 2 ^ 64 ≡ superpage_size * superpage_nb =
          omega (arith, ready.laid_out.local_sp_in, ready.laid_out.gas_end, ready.laid_out.fits) in
        let inside : n + superpage_nb ≤ s.superpage_by_node * s.nb_node =
          omega (arith, ready.laid_out.local_sp_in) in
        rw size (
          block (omega (arith, base, ready.laid_out.local_start))
            (omega (arith, base, ready.laid_out.local_end))
            (omega (arith, base, ready.laid_out.aligned))
            (λ p above below.
              let num = num_between s n superpage_nb p ready.laid_out inside above below in
              start_found s s' n p (starts (superpage_num s p) num.1 num.0))
            λ m.
              ap (λ t. bit_at t.mapping_table m)
                (released s s' n superpage_nb ready.laid_out inside (omega arith))
              ∙ (back m).0)
    go a e refused = no_memory e
