-- ===== src/Launch.antt =====
-- The launch files: which processes they describe, with which topics and parameters. What the launch
-- system makes of a condition is an argument.
pub mod Navigation
pub mod Order
pub mod Simulation
pub mod Vehicle
use ros2_ws_gp.Common.{ℕ, Bool, Option, none, some, List, [], ◌∷◌, ◌++◌, map, if◌then◌else◌}
use ros2_ws_gp.Common.Text.{Text, text_beq}

-- `IfCondition` of a launch argument, of the expression `not` before one, or of its equality with a text.
pub data Condition : Type 0 where
  given negated : Text → Condition
  equals : Text → Text → Condition

-- A value by its text, a list of names, or what a command prints.
pub data Value : Type 0 where
  text : Text → Value
  names : List Text → Value
  command : List Text → Value

-- An entry of `parameters`: a file, or the file that is rewritten, with its root key and its rewrites,
-- or a dictionary.
pub data Parameters : Type 0 where
  file : Text → Parameters
  rewritten : Text → Text → List (Text × Text) → Parameters
  values : List (Text × Value) → Parameters

-- `Node`. The respawn delay is in seconds.
pub record Process : Type 0 where
  pub ros_package : Text
  pub executable : Text
  pub name : Option Text
  pub respawn : Option (Text × ℕ)
  pub arguments : List Text
  pub parameters : List Parameters
  pub remappings : List (Text × Text)

-- `ComposableNode`
pub record Component : Type 0 where
  pub ros_package : Text
  pub plugin : Text
  pub name : Text
  pub parameters : List Parameters
  pub remappings : List (Text × Text)

-- What both forms say about a node: its name, its parameters and its topics.
pub record Started : Type 0 where
  pub name : Text
  pub files : List Parameters
  pub entries : List (Text × Value)
  pub remappings : List (Text × Text)

abbrev files_of : List Parameters → List Parameters
files_of [] = []
files_of (file path ∷ ps) = file path ∷ files_of ps
files_of (rewritten source root rewrites ∷ ps) = rewritten source root rewrites ∷ files_of ps
files_of (values vs ∷ ps) = files_of ps

abbrev entries_of : List Parameters → List (Text × Value)
entries_of [] = []
entries_of (file path ∷ ps) = entries_of ps
entries_of (rewritten source root rewrites ∷ ps) = entries_of ps
entries_of (values vs ∷ ps) = vs ++ entries_of ps

-- A process without a name has the name of its executable.
abbrev name_or : Text → Option Text → Text
name_or executable none = executable
name_or executable (some name) = name

unfoldable pub of_process : Process → Started
of_process p = record {
  name = name_or p.executable p.name;
  files = files_of p.parameters;
  entries = entries_of p.parameters;
  remappings = p.remappings;
}

unfoldable pub of_component : Component → Started
of_component c = record {
  name = c.name;
  files = files_of c.parameters;
  entries = entries_of c.parameters;
  remappings = c.remappings;
}

-- The topic that a node means by a name: the first remapping of it counts.
unfoldable pub resolve : List (Text × Text) → Text → Text
resolve [] topic = topic
resolve ((from, to) ∷ remappings) topic =
    let rest = resolve remappings topic in if text_beq from topic then to else rest
