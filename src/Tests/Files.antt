-- ===== src/Tests/Files.antt =====
-- The scripts that derive files for the simulation, at concrete inputs.
use ros2_ws_gp.Common.{
  ◌<◌, ◌≡◌, refl, ◌⊎◌, ℕ, true, false, Option, none, some, List, [], ◌∷◌, ◌++◌, arith, select, any,
  ◌==◌,
}
use mathlib.Core.Option
use ros2_ws_gp.Common.Dict.{Dict}
use ros2_ws_gp.Common.Text.{Text, codes, split_once, text_beq, strip, is_space, lstrip_by, Lacks}
use ros2_ws_gp.Params.Swap.{is_header, indent_of, ends_block, swap_block}
use ros2_ws_gp.Params.Swap.Parts.{Layout, lines_of, Headless}
use ros2_ws_gp.Params.Swap.Block.{swapped, swap_block-cases}
use ros2_ws_gp.Params.Overrides.{make_params, parse_overrides}
use ros2_ws_gp.Params.Overrides.Enclosing.{report_of, make_params-expected}
use ros2_ws_gp.Params.Overrides.Scoped.{scoped_lines, make_params-scoped}
use ros2_ws_gp.Params.Overrides.Missing.{unused, rewritten_keys, make_params-not_found}
use ros2_ws_gp.Urdf.{
  Node, comment, node, nil, cons, strip_comments, split_lines, join_lines, kept_lines, main,
}
use ros2_ws_gp.Urdf.Document.{marks, is_markup, strip_comments-marks}
use ros2_ws_gp.Urdf.Lines.{Judged, main-Judged}

abbrev controller_yaml : List Text
controller_yaml =
    codes "  controllers:"
    ∷ codes "    FollowPath:"
    ∷ codes "      plugin: mppi"
    ∷ codes ""
    ∷ codes "      time_steps: 56"
    ∷ codes "  costmap:"
    ∷ []

swap_block-cases_example :
    (Headless controller_yaml × (swap_block controller_yaml ≡ none))
    ⊎ ((f : Layout) × (controller_yaml ≡ lines_of f)
        × (swap_block controller_yaml ≡ some (swapped f)))
swap_block-cases_example = swap_block-cases controller_yaml

plain : is_header (codes "  controllers:") ≡ false
unfolding is_header strip text_beq
plain = refl

heads : is_header (codes "    FollowPath:") ≡ true
unfolding is_header strip text_beq
heads = refl

deeper : ends_block (indent_of (codes "    FollowPath:")) (codes "      plugin: mppi") ≡ false
unfolding indent_of ends_block strip
deeper = refl

ends : ends_block (indent_of (codes "    FollowPath:")) (codes "  costmap:") ≡ true
unfolding indent_of ends_block strip
ends = refl

abbrev block : Layout
block = record {
  before = codes "  controllers:" ∷ [];
  header = codes "    FollowPath:";
  body = codes "      plugin: mppi" ∷ [];
  after = codes "  costmap:" ∷ [];
  headless = (plain, tt);
  opens = heads;
  inside = (deeper, tt);
  closed = ends;
}

at_four : indent_of block.header < 6
unfolding indent_of lstrip_by is_space
at_four = omega arith

abbrev critics_yaml : List Text
critics_yaml =
    codes "PathAlignCritic:\n"
    ∷ codes "  threshold: 0.5\n"
    ∷ codes "PathFollowCritic:\n"
    ∷ codes "  threshold: 0.5\n"
    ∷ []

abbrev scoped_arg : Text
scoped_arg = (codes "PathFollowCritic" ++ b'.' ∷ codes "threshold") ++ b'=' ∷ codes "0.4"

lacks : (c : ℕ) (t : Text) → any (λ d. d == c) t ≡ false → Lacks c t
lacks c [] h = tt
lacks c (d ∷ t) h = (ground arith, lacks c t (ground arith))

make_params-expected_example :
    make_params (scoped_arg ∷ []) critics_yaml
    ≡ Option.map (report_of critics_yaml) (parse_overrides [] (scoped_arg ∷ []))
make_params-expected_example = make_params-expected (scoped_arg ∷ []) critics_yaml

make_params-scoped_example :
    Option.map (λ r. r.written) (make_params (scoped_arg ∷ []) critics_yaml)
    ≡ some
        (scoped_lines (codes "PathFollowCritic") (codes "threshold") (codes "0.4") [] critics_yaml)
make_params-scoped_example =
    make_params-scoped (codes "PathFollowCritic") (codes "threshold") (codes "0.4") critics_yaml
      (lacks b'.' (codes "PathFollowCritic") refl) (lacks b'.' (codes "threshold") refl)
      (lacks b'=' (codes "PathFollowCritic") refl) (lacks b'=' (codes "threshold") refl)

-- An override of a block that does not exist is not reported, once another one has hit its key.
abbrev unheard : Dict Text Text
unheard = (codes "Nowhere.threshold", codes "9") ∷ (codes "threshold", codes "0.4") ∷ []

parsed :
    parse_overrides [] (codes "Nowhere.threshold=9" ∷ codes "threshold=0.4" ∷ []) ≡ some unheard
unfolding parse_overrides split_once text_beq
parsed = refl

make_params-not_found_example :
    Option.map
      (λ r. r.not_found)
      (make_params (codes "Nowhere.threshold=9" ∷ codes "threshold=0.4" ∷ []) critics_yaml)
    ≡ some (unused unheard (rewritten_keys unheard [] critics_yaml))
make_params-not_found_example =
    make_params-not_found (codes "Nowhere.threshold=9" ∷ codes "threshold=0.4" ∷ []) critics_yaml
      unheard parsed

abbrev robot_xml : Node
robot_xml = node (codes "robot") (
    cons (comment (codes "note: this"))
      (cons (node (codes "link") (cons (comment (codes "deep:")) nil)) nil))

strip_comments-marks_example : marks (strip_comments robot_xml) ≡ select is_markup (marks robot_xml)
strip_comments-marks_example = strip_comments-marks (codes "robot") (
    cons (comment (codes "note: this"))
      (cons (node (codes "link") (cons (comment (codes "deep:")) nil)) nil))

abbrev expand : Text → Dict Text Text → Option Node
expand path found = some robot_xml

abbrev print_xml : Node → Text
print_xml doc = codes "<robot>\n  \n</robot>"

main-Judged_example :
    (split_lines (join_lines (kept_lines (print_xml (strip_comments robot_xml))))
      ≡ kept_lines (print_xml (strip_comments robot_xml)))
    × Judged 1
        (kept_lines (print_xml (strip_comments robot_xml)))
        (join_lines (kept_lines (print_xml (strip_comments robot_xml))))
        (main expand print_xml (codes "robot.xacro" ∷ []))
main-Judged_example = main-Judged expand print_xml (codes "robot.xacro") [] robot_xml refl
