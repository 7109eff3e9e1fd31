-- ===== src/MapCleaner.antt =====
-- clean_map_from_bag.py: the beams of a recording are traced over a map, and the obstacles that were
-- looked through are erased from it.
pub mod Beams
pub mod Trace
pub mod Image
use ros2_ws_gp.Common.{
  ℕ, zero, suc, ◌+◌, ◌-◌, ◌*◌, Bool, true, false, not, ◌&&◌, ◌||◌, Option, none, some, List, [],
  ◌∷◌, ◌++◌, ◌==◌, leb, ltb, length, get_elem?, if◌then◌else◌,
}
use ros2_ws_gp.Common.Int.{ℤ, pos, negsuc, neg, plus, minus, magnitude, ltb_int, beq_int, pos_part}
use ros2_ws_gp.Override.Floats.{Floats, zero_float, abs_float}
use ros2_ws_gp.Arena.{rows_from}

-- A column and a row of the map.
abbrev pub Cell : Type 0
Cell = ℤ × ℤ

unfoldable pub same_cell : Cell → Cell → Bool
same_cell (c, r) (c1, r1) = beq_int c c1 && beq_int r r1

-- `1 if a > b else -1`
abbrev pub towards : ℤ → ℤ → ℤ
towards a b = if ltb_int b a then pos 1 else negsuc 0

-- One step of Bresenham's line: the error and the cell.
unfoldable pub advance : ℕ → ℕ → ℤ → ℤ → ℤ × Cell → ℤ × Cell
advance dc dr sc sr (err, (c, r)) =
    let e2 = plus err err in
    let (err', c') = if ltb_int (neg dr) e2 then (minus err (pos dr), plus c sc) else (err, c) in
    if ltb_int e2 (pos dc) then (plus err' (pos dc), (c', plus r sr)) else (err', (c', r))

-- The cells that a beam passes before the one that it returns from, at most 600.
unfoldable pub trace_from : ℕ → (ℤ × Cell → ℤ × Cell) → Cell → ℤ × Cell → List Cell
trace_from zero next last (err, cell) = []
trace_from (suc n) next last (err, cell) =
    let rest = trace_from n next last (next (err, cell)) in
    if same_cell cell last then [] else cell ∷ rest

unfoldable pub trace : Cell → Cell → List Cell
trace (c0, r0) (c1, r1) =
    let dc = magnitude (minus c1 c0) in
    let dr = magnitude (minus r1 r0) in
    trace_from 600 (advance dc dr (towards c1 c0) (towards r1 r0)) (c1, r1)
      (minus (pos dc) (pos dr), (c0, r0))

pub record Map : Type 0 where
  pub width : ℕ
  pub height : ℕ
  pub cells : List ℤ

-- The index of a cell inside the map.
unfoldable pub index_of : Map → Cell → Option ℕ
index_of mp (pos c, pos r) =
    if ltb c mp.width && ltb r mp.height then some (r * mp.width + c) else none
index_of mp _ = none

abbrev at_least_65 : Option ℤ → Bool
at_least_65 none = false
at_least_65 (some v) = not (ltb_int v (pos 65))

-- `idx in occ`
unfoldable pub is_occ : Map → ℕ → Bool
is_occ mp idx = at_least_65 (get_elem? mp.cells idx)

-- How often an index was counted.
unfoldable pub count : ℕ → List ℕ → ℕ
count i [] = 0
count i (j ∷ js) = let rest = count i js in if j == i then 1 + rest else rest

abbrev tally_at : Map → Option ℕ → List ℕ → List ℕ
tally_at mp none counted = counted
tally_at mp (some idx) counted = if is_occ mp idx then idx ∷ counted else counted

-- The occupied cells among some cells, added to a counter.
unfoldable pub tally : Map → List Cell → List ℕ → List ℕ
tally mp [] counted = counted
tally mp (cell ∷ cells) counted = tally mp cells (tally_at mp (index_of mp cell) counted)

-- The counters `seen` and `hit` after a beam from one cell to another.
unfoldable pub count_beam : Map → Cell → Cell → List ℕ × List ℕ → List ℕ × List ℕ
count_beam mp from last (seen, hit) = (tally mp (trace from last) seen, tally mp (last ∷ []) hit)

unfoldable pub count_beams : Map → List (Cell × Cell) → List ℕ × List ℕ → List ℕ × List ℕ
count_beams mp [] counts = counts
count_beams mp ((from, last) ∷ beams) counts = count_beams mp beams (count_beam mp from last counts)

abbrev pub min_seen : ℕ
min_seen = 50

module _ (R : Floats) where
  open R use {Float, decimal, mul, ltb as lt_float}

  -- `hit[i] <= HIT_RATIO * seen[i]`
  unfoldable pub is_rare : ℕ → ℕ → Bool
  is_rare hits seen = not (lt_float (mul (decimal 2 2) (decimal seen 0)) (decimal hits 0))

  unfoldable pub is_stale : Map → List ℕ × List ℕ → ℕ → Bool
  is_stale mp (seen, hit) i =
      is_occ mp i && (leb min_seen (count i seen) && is_rare (count i hit) (count i seen))

  abbrev pub shade : Option ℤ → ℕ
  shade none = 205
  shade (some (negsuc n)) = 205
  shade (some (pos v)) = if leb 65 v then 0 else 254

  -- `out_v`: a stale cell is free, and another keeps its meaning.
  unfoldable pub out_value : Map → List ℕ × List ℕ → ℕ → ℕ
  out_value mp counts i = if is_stale mp counts i then 254 else shade (get_elem? mp.cells i)

  -- The image, whose first row is the last of the map.
  unfoldable pub image : Map → List ℕ × List ℕ → List ℕ
  image mp counts =
      rows_from (λ top c. out_value mp counts ((mp.height - 1 - top) * mp.width + c)) mp.width 0
        mp.height
