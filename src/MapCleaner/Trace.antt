-- ===== src/MapCleaner/Trace.antt =====
-- The cells that a beam is taken to have passed.
use ros2_ws_gp.Common.{ℕ, zero, suc, ◌≡◌, inl, inr, false, All, Bool-cases, length, ◌≤◌, arith}
use ros2_ws_gp.Common.Int.{ℤ}
use ros2_ws_gp.MapCleaner.{Cell, same_cell, trace_from, trace}

trace_from-before :
    (n : ℕ) (next : ℤ × Cell → ℤ × Cell) (last : Cell) (at : ℤ × Cell)
    → All (λ cell. same_cell cell last ≡ false) (trace_from n next last at)
unfolding trace_from
trace_from-before zero next last (err, cell) = tt
trace_from-before (suc n) next last (err, cell) = elim (Bool-cases (same_cell cell last)) [
  | inl there ↦ rw there tt
  | inr before ↦ rw before (before, trace_from-before n next last (next (err, cell)))
]

trace_from-short :
    (n : ℕ) (next : ℤ × Cell → ℤ × Cell) (last : Cell) (at : ℤ × Cell)
    → length (trace_from n next last at) ≤ n
unfolding trace_from
trace_from-short zero next last (err, cell) = omega arith
trace_from-short (suc n) next last (err, cell) = elim (Bool-cases (same_cell cell last)) [
  | inl there ↦ rw there (omega arith)
  | inr before ↦ rw before (omega (arith, trace_from-short n next last (next (err, cell))))
]

-- A beam never looks through the cell that it returns from, and it counts 600 cells at most.
pub trace-before :
    (from last : Cell)
    → All (λ cell. same_cell cell last ≡ false) (trace from last) × (length (trace from last) ≤ 600)
unfolding trace
trace-before (c0, r0) (c1, r1) =
    (trace_from-before 600 _ (c1, r1) _, trace_from-short 600 _ (c1, r1) _)
