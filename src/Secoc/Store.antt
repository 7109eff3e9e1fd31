-- ===== src/Secoc/Store.antt =====
-- `FvStore`: one text file for each direction and data identifier, written aside and renamed.
pub mod Laws
use ros2_ws_gp.Common.{
  ℕ, zero, suc, ◌+◌, ◌≡◌, refl, ◌≢◌, ◌⊎◌, inl, inr, Bool, true, false, Option, none, some, [], ◌∷◌,
  ◌++◌, arith, if◌then◌else◌, take, is_empty,
}
use ros2_ws_gp.Common.Int.{ℤ, pos}
use ros2_ws_gp.Common.Dict.{Dict, lookup, insert, lookup-insert, beq_refl}
use ros2_ws_gp.Common.Text.{Text, text_eq, codes, strip}
use ros2_ws_gp.Common.Text.Decimal.{print, parse_int}

pub data Kind : Type 0 where
  tx rx : Kind

-- What a file holds when it is read as text.
pub data FileText : Type 0 where
  chars : Text → FileText
  undecodable : FileText

abbrev pub Files : Type 0
Files = Dict Text FileText

-- What the disk does during one `store`: `write_fails n` fails after n characters.
pub data Fault : Type 0 where
  healthy open_fails replace_fails : Fault
  write_fails : ℕ → Fault

-- What the disk does while one frame is checked or built: whether the counter file, if it is there, can
-- be opened and read, and what becomes of the `store`.
pub record Disk : Type 0 where
  pub reads : Bool
  pub fault : Fault

abbrev pub working : Disk
working = record { reads = true; fault = healthy }

unfoldable pub kind_text : Kind → Text
kind_text tx = codes "tx"
kind_text rx = codes "rx"

-- `FvStore._path`, in the store's directory
unfoldable pub path : Kind → ℕ → Text
unfolding kind_text
path kind did = codes "secoc_" ++ (kind_text kind ++ (codes "fv_" ++ print did))

unfoldable pub temporary : Kind → ℕ → Text
temporary kind did = path kind did ++ codes ".tmp"

-- `int(text.strip() or 0)`, and 0 on OSError and ValueError
unfoldable pub read_counter : Option FileText → ℤ
read_counter none = pos 0
read_counter (some undecodable) = pos 0
read_counter (some (chars t)) =
    if is_empty (strip t) then pos 0 else elim (parse_int (strip t)) [ none ↦ pos 0 | some z ↦ z ]

-- The counter that stands in the files.
unfoldable pub counter_in : Kind → ℕ → Files → ℤ
counter_in kind did files = read_counter (lookup (path kind did) files)

-- `FvStore.load`: an OSError is 0, also of a file that is there.
unfoldable pub load : Bool → Kind → ℕ → Files → ℤ
unfolding counter_in
load reads kind did files = if reads then counter_in kind did files else pos 0

unfoldable pub line_of : ℕ → Text
line_of fv = print fv ++ 10 ∷ []

-- `FvStore.store`: whether it returned, and the files. After a fault the temporary file stays.
unfoldable pub store : Fault → Kind → ℕ → ℕ → Files → Bool × Files
unfolding temporary line_of
store healthy kind did fv files = (true, insert (path kind did) (chars (line_of fv)) files)
store open_fails kind did fv files = (false, files)
store (write_fails n) kind did fv files =
    (false, insert (temporary kind did) (chars (take n (line_of fv))) files)
store replace_fails kind did fv files =
    (false, insert (temporary kind did) (chars (line_of fv)) files)
