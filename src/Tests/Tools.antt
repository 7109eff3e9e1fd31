-- ===== src/Tests/Tools.antt =====
-- The tools of the simulation at concrete inputs.
use ros2_ws_gp.Common.{
  refl, inl, ◌-◌, ℕ, ◌+◌, ◌*◌, ◌≤◌, ◌<◌, ◌≡◌, Bool, true, ◌&&◌, ◌||◌, some, List, [], ◌∷◌, ltb,
  length, get_elem?, All, arith,
}
use ros2_ws_gp.Probe.{split_at_cusps}
use ros2_ws_gp.Probe.Cusps.{IsSmooth, split_at_cusps-IsSmooth}
use ros2_ws_gp.Arena.{width, height}
use ros2_ws_gp.Common.Int.{pos, negsuc}
use ros2_ws_gp.MapCleaner.{Cell, Map, count, image}
use ros2_ws_gp.MapCleaner.Image.{image-kept}
use ros2_ws_gp.Tests.Vehicle.{numbers}

-- On a line, a point doubles back where both neighbours are on one side.
abbrev turns : ℕ → ℕ → ℕ → Bool
turns a b c = (ltb a b && ltb c b) || (ltb b a && ltb b c)

abbrev there_and_back : List ℕ
there_and_back = 0 ∷ 1 ∷ 2 ∷ 1 ∷ 0 ∷ []

split_at_cusps-IsSmooth_example :
    All (λ run. (3 ≤ length run) × IsSmooth turns run) (split_at_cusps turns there_and_back)
split_at_cusps-IsSmooth_example = split_at_cusps-IsSmooth turns there_and_back

abbrev four : ℕ → ℕ
four x = 4

in_height : 1 < height numbers four true
unfolding height
in_height = omega arith

in_width : 2 < width numbers four true
unfolding width
in_width = omega arith

abbrev origin : Cell
origin = (pos 0, pos 0)

-- Two columns and two rows, with an obstacle at the right below.
abbrev small_map : Map
small_map = record { width = 2; height = 2; cells = pos 0 ∷ pos 100 ∷ negsuc 0 ∷ pos 0 ∷ [] }

obstacle : get_elem? small_map.cells (0 * 2 + 1) ≡ some (pos (65 + 35))
obstacle = refl

unseen : count (0 * 2 + 1) [] < 50
unfolding count
unseen = omega arith

image-kept_example : get_elem? (image numbers small_map ([], [])) ((2 - 1 - 0) * 2 + 1) ≡ some 0
image-kept_example =
    image-kept numbers small_map [] [] 0 1 35 (omega arith) (omega arith) obstacle (inl unseen)
