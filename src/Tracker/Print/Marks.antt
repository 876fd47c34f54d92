-- ===== src/Tracker/Print/Marks.antt =====
-- What `print` of src/superpage_tracker.h prints, superpage by superpage.
use mathlib.Core.Path.{subst}
use native.Mathlib.Nat.{mod-lt, mul-le-mul_left}
use givy.Base.{
  ℕ, zero, suc, ◌+◌, ◌-◌, ◌*◌, ◌/◌, ◌%◌, ◌^◌, ◌≤◌, ◌<◌, bit_and, ◌≡◌, refl, sym, ap, ◌∙◌, arith,
  Bool, true, false, List, [], ◌∷◌, ◌++◌, ◌==◌, if◌then◌else◌, Bool-cases, inl, inr, ==→eq, zero,
}
use mathlib.Core.List.{append-nil, append_assoc}
use givy.Bits.{bit, bit-le, bit-zero, bit-bit_and, bit_ext}
use givy.BitMask.{is_set, shl, one}
use givy.BitMask.Windows.{bit-shl_in}
use givy.Range.{Range, range_to, range_from_offset, size, first, last}
use givy.Range.Iterate.{iterate, ascending, iterate-ascending}
use givy.Tracker.{Tracker, Table, word_bits, load, index}
use givy.Tracker.Ranges.{bit_at}
use givy.Tracker.RoundTrip.{IsTidy}
use givy.Tracker.Sequences.{HasCells}
use givy.Tracker.Print.{
  Mark, equals, hash, question, underscore, Output, line, character, Printing, mark,
  print_superpage, print_superpages, print_nodes, print,
}

bit_one : (j : ℕ) → bit 1 j ≡ (if j == 0 then 1 else 0)
unfolding bit
bit_one zero = refl
bit_one (suc j) = ground (arith, bit-zero j)

pub is_set-bit : (x b : ℕ) → b < word_bits → is_set word_bits x b ≡ (bit x b == 1)
unfolding is_set
is_set-bit x b lt = elim (Bool-cases (bit x b == 1)) [
  | inl e ↦
      let d : bit (bit_and (shl word_bits one b) x) b ≡ 1 = ground (
        arith,
        bit-bit_and (shl word_bits one b) x b,
        bit-shl_in word_bits one b b,
        bit_one (b - b),
      ) in
      elim (Bool-cases (bit_and (shl word_bits one b) x == 0)) [
        | inl n ↦ absurd (omega (arith, d, bit-zero b, ap (λ w. bit w b) (==→eq _ _ n)))
        | inr n ↦ rw (n, e) refl
      ]
  | inr e ↦
      let z : bit_and (shl word_bits one b) x ≡ 0 = bit_ext _ _ λ i. ground (
        arith,
        bit-bit_and (shl word_bits one b) x i,
        bit-shl_in word_bits one b i,
        bit_one (i - b),
        bit-le x b,
        bit-zero i,
      ) in
      rw (z, e) refl
]

-- The mark of a superpage, by its two digits.
abbrev pub mark_of : ℕ → ℕ → Mark
mark_of mapped sequence =
    if mapped == 1
    then (if sequence == 1 then equals else hash)
    else (if sequence == 1 then question else underscore)

mark-mark_of : (m s b : ℕ) → b < word_bits → mark m s b ≡ mark_of (bit m b) (bit s b)
mark-mark_of m s b lt = rw (is_set-bit m b lt, is_set-bit s b lt) refl

-- The word of a cell that `print` has at a superpage: a new one at the first bit of a cell.
cached :
    (table : Table) (m sp : ℕ)
    → ((sp % word_bits == 0) ≡ false → m ≡ load table (sp / word_bits))
    → (if sp % word_bits == 0 then load table (sp / word_bits) else m) ≡ load table (sp / word_bits)
cached table m sp h = elim (Bool-cases (sp % word_bits == 0)) [
  | inl e ↦ rw e refl
  | inr e ↦ rw e (h e)
]

-- The range of the superpages of a node.
abbrev node_range : ℕ → ℕ → Range
node_range superpage_by_node node =
    range_from_offset (superpage_by_node * node % 2 ^ 64) superpage_by_node

node_superpages :
    (by node : ℕ)
    → by * node + by < 2 ^ 64
    → (first (node_range by node) ≡ by * node)
      × (iterate (suc (size (node_range by node))) (node_range by node) ≡ ascending (by * node) by)
node_superpages by node lt =
    let a = by * node in
    let here : by * node % 2 ^ 64 ≡ a = omega arith in
    let stop : (by * node % 2 ^ 64 + by) % 2 ^ 64 ≡ a + by = omega arith in
    let all : size (node_range by node) ≡ by = omega arith in
    let count : (by * node % 2 ^ 64 + by) % 2 ^ 64 - by * node % 2 ^ 64 ≡ by = omega arith in
    (
      here,
      iterate-ascending (suc (size (node_range by node))) (node_range by node) (omega arith)
            (omega arith) (omega arith)
          ∙ ap (λ i. ascending i (last (node_range by node) - first (node_range by node))) here
          ∙ ap (ascending a) count,
    )

module _ (t : Tracker) (superpage_by_line : ℕ) where
  -- What is printed for one superpage, for `n` superpages from `sp` on, and for `n` nodes.
  abbrev pub superpage_output : ℕ → ℕ → List Output
  superpage_output start sp =
      (if (sp - start) % superpage_by_line == 0 then line sp ∷ [] else [])
      ++ character (mark_of (bit_at t.mapping_table sp) (bit_at t.sequence_table sp)) ∷ []

  abbrev pub superpages_output : ℕ → ℕ → ℕ → List Output
  superpages_output start sp zero = []
  superpages_output start sp (suc n) =
      superpage_output start sp ++ superpages_output start (sp + 1) n

  abbrev pub nodes_output : ℕ → ℕ → ℕ → List Output
  nodes_output superpage_by_node node zero = []
  nodes_output superpage_by_node node (suc n) =
      superpages_output (superpage_by_node * node) (superpage_by_node * node) superpage_by_node
      ++ nodes_output superpage_by_node (node + 1) n

  -- Before the superpage `sp`, the local variables hold its cells, if it is not the first of them.
  abbrev Holds : Printing → ℕ → Type 0
  Holds p sp =
      (sp % word_bits == 0) ≡ false
      → (p.m ≡ load t.mapping_table (sp / word_bits))
        × (p.s ≡ load t.sequence_table (sp / word_bits))

  print_superpage-Printed :
      (start sp : ℕ) (p : Printing)
      → start ≤ sp
      → sp < 2 ^ 64
      → Holds p sp
      → Holds (print_superpage t superpage_by_line start p sp) (sp + 1)
        × ((print_superpage t superpage_by_line start p sp).printed
            ≡ p.printed ++ superpage_output start sp)
  unfolding print_superpage index
  print_superpage-Printed start sp p le lt h =
      let d : (sp + 2 ^ 64 - start) % 2 ^ 64 ≡ sp - start = omega arith in
      let rm = cached t.mapping_table p.m sp (λ e. (h e).0) in
      let rs = cached t.sequence_table p.s sp (λ e. (h e).1) in
      let shown =
        mark-mark_of (load t.mapping_table (sp / word_bits))
          (load t.sequence_table (sp / word_bits)) (sp % word_bits) (mod-lt sp (omega arith)) in
      (
        λ e.
            let same : (sp + 1) / word_bits ≡ sp / word_bits = ground arith in
            rw (rm, rs, same) (refl, refl),
        rw (rm, rs, d, shown) refl,
      )

  print_superpages-Printed :
      (n start sp : ℕ) (p : Printing)
      → start ≤ sp
      → sp + n < 2 ^ 64
      → Holds p sp
      → Holds (print_superpages t superpage_by_line start p (ascending sp n)) (sp + n)
        × ((print_superpages t superpage_by_line start p (ascending sp n)).printed
            ≡ p.printed ++ superpages_output start sp n)
  unfolding print_superpages
  print_superpages-Printed zero start sp p le lt h =
      (subst (λ a. Holds p a) {x = sp} (omega arith) h, sym (append-nil p.printed))
  print_superpages-Printed (suc n) start sp p le lt h =
      let q = print_superpage t superpage_by_line start p sp in
      let one = print_superpage-Printed start sp p le (omega arith) h in
      let rest = print_superpages-Printed n start (sp + 1) q (omega arith) (omega arith) one.0 in
      (
        subst (λ a. Holds (print_superpages t superpage_by_line start q (ascending (sp + 1) n)) a)
            {x = sp + 1 + n} (omega arith) rest.0,
        rest.1
            ∙ ap (λ l. l ++ superpages_output start (sp + 1) n) one.1
            ∙ append_assoc p.printed (superpage_output start sp)
                (superpages_output start (sp + 1) n),
      )

  print_nodes-output :
      (n node superpage_by_node : ℕ) (p : Printing)
      → superpage_by_node * (node + n) < 2 ^ 64
      → Holds p (superpage_by_node * node)
      → (print_nodes t superpage_by_line superpage_by_node p (ascending node n)).printed
        ≡ p.printed ++ nodes_output superpage_by_node node n
  unfolding print_nodes
  print_nodes-output zero node by p lt h = sym (append-nil p.printed)
  print_nodes-output (suc n) node by p lt h =
      let a = by * node in
      let more : by * (node + 1 + n) ≡ by * (node + suc n) = ap (λ k. by * k) (omega arith) in
      let after : by * (node + 1) ≡ a + by = omega arith in
      let up : by * (node + 1) ≤ by * (node + 1 + n) = mul-le-mul_left by (omega arith) in
      let r = node_range by node in
      let sps = node_superpages by node (omega arith) in
      let q = print_superpages t superpage_by_line a p (ascending a by) in
      let one = print_superpages-Printed by a a p (omega arith) (omega arith) h in
      let rest =
        print_nodes-output n (node + 1) by q (omega arith)
          (subst (λ b. Holds q b) (sym after) one.0) in
      ap
        (λ f.
          (print_nodes t superpage_by_line by
            (print_superpages t superpage_by_line f p (iterate (suc (size r)) r))
            (ascending (node + 1) n)).printed)
        sps.0
      ∙ ap
          (λ l.
            (print_nodes t superpage_by_line by (print_superpages t superpage_by_line a p l)
              (ascending (node + 1) n)).printed)
          sps.1
      ∙ rest
      ∙ ap (λ l. l ++ nodes_output by (node + 1) n) one.1
      ∙ append_assoc p.printed (superpages_output a a by) (nodes_output by (node + 1) n)

  -- Where both tables have `cells` words, with a place for each superpage of the nodes, and a line has
  -- at least one superpage: `print` shows the superpages of `nb_node` nodes in order, each with the mark that its digits in
  -- the two tables ask for, though it reads a cell only at its first superpage, and it starts a line
  -- at each node and after `superpage_by_line` superpages of a node. All superpage numbers are below
  -- 2 ^ 64.
  pub print-marks :
      (nb_node superpage_by_node cells : ℕ)
      → HasCells cells t
      → superpage_by_node * nb_node ≤ word_bits * cells
      → 0 < superpage_by_line
      → nb_node < 2 ^ 64
      → superpage_by_node * nb_node < 2 ^ 64
      → print t superpage_by_line nb_node superpage_by_node
        ≡ nodes_output superpage_by_node 0 nb_node
  unfolding print
  print-marks nb by cells has inside line_pos small lt =
      let none_yet : Printing = record { m = 0; s = 0; printed = [] } in
      let count : nb - 0 ≡ nb = omega arith in
      let nodes : iterate (suc nb) (range_to nb) ≡ ascending 0 nb =
        iterate-ascending (suc nb) (range_to nb) (omega arith) small (omega arith)
        ∙ ap (ascending 0) count in
      let first_node : by * 0 ≡ 0 = omega arith in
      ap (λ l. (print_nodes t superpage_by_line by none_yet l).printed) nodes
      ∙ print_nodes-output nb 0 by none_yet (omega arith)
          (subst (λ a. Holds none_yet a) (sym first_node) (λ e. absurd (ground (arith, e))))

-- Whether `?` is printed, which stands for a superpage that only the sequence table marks.
abbrev pub shows_question : List Output → Bool
shows_question [] = false
shows_question (line sp ∷ rest) = shows_question rest
shows_question (character question ∷ rest) = true
shows_question (character equals ∷ rest) = shows_question rest
shows_question (character hash ∷ rest) = shows_question rest
shows_question (character underscore ∷ rest) = shows_question rest

shows_question-append :
    (xs ys : List Output)
    → shows_question xs ≡ false
    → shows_question ys ≡ false
    → shows_question (xs ++ ys) ≡ false
shows_question-append [] ys h k = k
shows_question-append (line sp ∷ xs) ys h k = shows_question-append xs ys h k
shows_question-append (character question ∷ xs) ys h k = cc (h)
shows_question-append (character equals ∷ xs) ys h k = shows_question-append xs ys h k
shows_question-append (character hash ∷ xs) ys h k = shows_question-append xs ys h k
shows_question-append (character underscore ∷ xs) ys h k = shows_question-append xs ys h k

mark_of-known :
    (mapped sequence : ℕ)
    → (mapped ≡ 0 → sequence ≡ 0)
    → mapped ≤ 1
    → shows_question (character (mark_of mapped sequence) ∷ []) ≡ false
mark_of-known zero sequence h b = rw (h refl) refl
mark_of-known (suc zero) sequence h b = elim (Bool-cases (sequence == 1)) [
  | inl e ↦ rw e refl
  | inr e ↦ rw e refl
]
mark_of-known (suc (suc m)) sequence h b = absurd (omega arith)

module _ (t : Tracker) (superpage_by_line : ℕ) (tidy : IsTidy t) where
  superpages_output-known :
      (start sp n : ℕ) → shows_question (superpages_output t superpage_by_line start sp n) ≡ false
  superpages_output-known start sp zero = refl
  superpages_output-known start sp (suc n) =
      shows_question-append (superpage_output t superpage_by_line start sp)
        (superpages_output t superpage_by_line start (sp + 1) n)
        (shows_question-append (if (sp - start) % superpage_by_line == 0 then line sp ∷ [] else [])
          (character (mark_of (bit_at t.mapping_table sp) (bit_at t.sequence_table sp)) ∷ [])
          (elim (Bool-cases ((sp - start) % superpage_by_line == 0)) [
            | inl e ↦ rw e refl
            | inr e ↦ rw e refl
          ])
          (mark_of-known (bit_at t.mapping_table sp) (bit_at t.sequence_table sp) (tidy sp)
            (bit-le (load t.mapping_table (sp / word_bits)) (sp % word_bits))))
        (superpages_output-known start (sp + 1) n)

  nodes_output-known :
      (superpage_by_node node n : ℕ)
      → shows_question (nodes_output t superpage_by_line superpage_by_node node n) ≡ false
  nodes_output-known by node zero = refl
  nodes_output-known by node (suc n) =
      shows_question-append (superpages_output t superpage_by_line (by * node) (by * node) by)
        (nodes_output t superpage_by_line by (node + 1) n)
        (superpages_output-known (by * node) (by * node) by) (nodes_output-known by (node + 1) n)

  -- No `?` is printed of a tracker whose free superpages are not marked in the sequence table.
  pub print-known :
      (nb_node superpage_by_node cells : ℕ)
      → HasCells cells t
      → superpage_by_node * nb_node ≤ word_bits * cells
      → 0 < superpage_by_line
      → nb_node < 2 ^ 64
      → superpage_by_node * nb_node < 2 ^ 64
      → shows_question (print t superpage_by_line nb_node superpage_by_node) ≡ false
  print-known nb by cells has inside line_pos small lt =
      ap shows_question (print-marks t superpage_by_line nb by cells has inside line_pos small lt)
      ∙ nodes_output-known by 0 nb
