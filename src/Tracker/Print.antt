-- ===== src/Tracker/Print.antt =====
-- `SuperpageTracker::print` of src/superpage_tracker.h: the table of superpages that it prints after
-- the line of indicators, as a list of what `printf` is called for.
pub mod Marks
use givy.Base.{ℕ, suc, ◌+◌, ◌-◌, ◌*◌, ◌%◌, ◌^◌, Bool, List, [], ◌∷◌, ◌++◌, ◌==◌, if◌then◌else◌}
use givy.BitMask.{is_set}
use givy.Range.{Range, range_to, range_from_offset, first, size}
use givy.Range.Iterate.{iterate}
use givy.Tracker.{Tracker, word_bits, load, index}

-- The characters `=`, `#`, `?` and `_`.
pub data Mark : Type 0 where
  equals : Mark
  hash : Mark
  question : Mark
  underscore : Mark

pub data Output : Type 0 where
  line : ℕ → Output
  character : Mark → Output

-- The local variables `m` and `s`, and what is printed so far.
pub record Printing : Type 0 where
  pub m : ℕ
  pub s : ℕ
  pub printed : List Output

abbrev pub mark : ℕ → ℕ → ℕ → Mark
mark m s bit_idx =
    if is_set word_bits m bit_idx
    then (if is_set word_bits s bit_idx then equals else hash)
    else (if is_set word_bits s bit_idx then question else underscore)

module _ (t : Tracker) (superpage_by_line : ℕ) where
  unfoldable pub print_superpage : ℕ → Printing → ℕ → Printing
  print_superpage start p sp =
      let idx = index sp in
      let m = if idx.bit_idx == 0 then load t.mapping_table idx.array_idx else p.m in
      let s = if idx.bit_idx == 0 then load t.sequence_table idx.array_idx else p.s in
      let new_line =
        if (sp + 2 ^ 64 - start) % 2 ^ 64 % superpage_by_line == 0 then line sp ∷ [] else [] in
      record {
        m = m;
        s = s;
        printed = p.printed ++ (new_line ++ character (mark m s idx.bit_idx) ∷ []);
      }

  unfoldable pub print_superpages : ℕ → Printing → List ℕ → Printing
  print_superpages start p [] = p
  print_superpages start p (sp ∷ sps) = print_superpages start (print_superpage start p sp) sps

  unfoldable pub print_nodes : ℕ → Printing → List ℕ → Printing
  print_nodes superpage_by_node p [] = p
  print_nodes superpage_by_node p (node ∷ nodes) =
      let sp_range = range_from_offset (superpage_by_node * node % 2 ^ 64) superpage_by_node in
      let sps = iterate (suc (size sp_range)) sp_range in
      print_nodes superpage_by_node (print_superpages (first sp_range) p sps) nodes

  unfoldable pub print : ℕ → ℕ → List Output
  print nb_node superpage_by_node =
      let nodes = iterate (suc nb_node) (range_to nb_node) in
      (print_nodes superpage_by_node record { m = 0; s = 0; printed = [] } nodes).printed
