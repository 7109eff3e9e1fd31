-- ===== src/Urdf.antt =====
-- urdf_for_gazebo.py: the description of the robot without its comments, on standard output, unless a
-- line of it would break the parser of parameters. `xacro.process_file` and `toprettyxml` are arguments.
pub mod Document
pub mod Lines
use ros2_ws_gp.Common.{
  ℕ, suc, Bool, true, false, not, ◌&&◌, ◌||◌, Option, none, some, List, [], ◌∷◌, ◌++◌, leb, ◌==◌,
  if◌then◌else◌, is_empty, drop, select,
}
use ros2_ws_gp.Common.Dict.{Dict, insert}
use ros2_ws_gp.Common.Text.{Text, text_eq, strip}

-- A node of the document: a comment, or any other node by what the script does not look at (its kind,
-- name, attributes or characters) and its children.
mutual
  pub data Node : Type 0 where
    comment : Text → Node
    node : Text → Nodes → Node

  pub data Nodes : Type 0 where
    nil : Nodes
    cons : Node → Nodes → Nodes

unfoldable mutual
  pub strip_comments : Node → Node
  strip_comments (comment t) = comment t
  strip_comments (node label children) = node label (strip_children children)

  pub strip_children : Nodes → Nodes
  strip_children nil = nil
  strip_children (cons (comment t) children) = strip_children children
  strip_children (cons (node label inner) children) =
      cons (strip_comments (node label inner)) (strip_children children)

-- The characters that `splitlines` ends a line at.
unfoldable pub is_break : ℕ → Bool
is_break c =
    (leb 10 c && leb c 13) || (leb 28 c && leb c 30) || c == 0x85 || c == 0x2028 || c == 0x2029

unfoldable pub starts_with : ℕ → Text → Bool
starts_with c [] = false
starts_with c (d ∷ t) = d == c

unfoldable pub add_to_first : ℕ → List Text → List Text
add_to_first c [] = (c ∷ []) ∷ []
add_to_first c (l ∷ lines) = (c ∷ l) ∷ lines

-- `t.splitlines()`: a carriage return and the line feed after it end one line.
unfoldable pub split_lines : Text → List Text
split_lines [] = []
split_lines (c ∷ t) =
    let rest = split_lines t in
    if is_break c
    then [] ∷ (if c == 13 && starts_with 10 t then drop 1 rest else rest)
    else add_to_first c rest

-- `'\n'.join(lines)`
unfoldable pub join_lines : List Text → Text
join_lines [] = []
join_lines (l ∷ []) = l
join_lines (l ∷ m ∷ lines) = l ++ 10 ∷ join_lines (m ∷ lines)

-- `[line for line in urdf.splitlines() if line.strip()]`
unfoldable pub kept_lines : Text → List Text
kept_lines urdf = select (λ line. not (is_empty (strip line))) (split_lines urdf)

-- `': ' in s or s.endswith(':')`
unfoldable pub breaks : Text → Bool
breaks [] = false
breaks (c ∷ s) = let rest = breaks s in (c == b':' && (is_empty s || starts_with 32 s)) || rest

-- What the script ends with: the code 2 and its text of use, the code 1 with the number and the text of
-- a line, the code 0 with what it printed, or the exception of `process_file`.
pub data Exit : Type 0 where
  usage : Exit
  refused : ℕ → Text → Exit
  printed : Text → Exit
  raised : Exit

-- The loop over the lines, numbered from `i`.
unfoldable pub look_for_break : ℕ → List Text → Text → Exit
look_for_break i [] urdf = printed urdf
look_for_break i (line ∷ lines) urdf =
    let rest = look_for_break (suc i) lines urdf in
    if breaks (strip line) then refused i (strip line) else rest

-- `a.split(':=', 1)`, of an argument with `:=` in it
unfoldable pub split_mapping : Text → Option (Text × Text)
split_mapping [] = none
split_mapping (c ∷ t) =
    let rest = split_mapping t in
    if c == b':' && starts_with b'=' t then some ([], drop 1 t) else with_char rest
  where
    with_char : Option (Text × Text) → Option (Text × Text)
    with_char none = none
    with_char (some (s, u)) = some (c ∷ s, u)

unfoldable pub mappings : Dict Text Text → List Text → Dict Text Text
mappings found [] = found
mappings found (arg ∷ args) = elim (split_mapping arg) [
  | none ↦ mappings found args
  | some pair ↦ mappings (insert pair.0 pair.1 found) args
]

module _ (process_file : Text → Dict Text Text → Option Node) (toprettyxml : Node → Text) where
  unfoldable pub print_document : Option Node → Exit
  print_document none = raised
  print_document (some doc) =
      let urdf = join_lines (kept_lines (toprettyxml (strip_comments doc))) in
      look_for_break 1 (split_lines urdf) urdf

  unfoldable pub main : List Text → Exit
  main [] = usage
  main (path ∷ args) = print_document (process_file path (mappings [] args))
