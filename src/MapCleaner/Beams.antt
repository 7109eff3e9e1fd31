-- ===== src/MapCleaner/Beams.antt =====
-- clean_map_from_bag.py: from the recorded transforms and scans to the cells of each beam.
use ros2_ws_gp.Common.{ℕ, suc, Bool, not, ◌&&◌, Option, some, List, [], ◌∷◌, if◌then◌else◌}
use ros2_ws_gp.Common.Int.{ℤ}
use ros2_ws_gp.Override.Floats.{Floats, abs_float}
use ros2_ws_gp.MapCleaner.{Cell, Map, count_beams}

-- Of Python's `math` and `int`, what is used; `truncate` rounds towards zero.
pub record Maths (R : Floats) : Type 0 where
  pub sin : R.Float → R.Float
  pub cos : R.Float → R.Float
  pub atan2 : R.Float → R.Float → R.Float
  pub is_finite : R.Float → Bool
  pub truncate : R.Float → ℤ

module _ (R : Floats) (maths : Maths R) where
  open R use {Float, decimal, add, sub, mul, div, ltb as lt_float}
  open maths use {sin, cos, atan2, is_finite, truncate}

  pub record Quaternion : Type 0 where
    pub w : Float
    pub x : Float
    pub y : Float
    pub z : Float

  pub record Transform : Type 0 where
    pub x : Float
    pub y : Float
    pub rotation : Quaternion

  -- A transform of a /tf message, by its frames.
  pub data Frame : Type 0 where
    map_odom odom_base : Transform → Frame
    other_frames : Frame

  pub record Pose : Type 0 where
    pub t : Float
    pub x : Float
    pub y : Float
    pub yaw : Float

  unfoldable pub yaw_of : Quaternion → Float
  yaw_of q =
      atan2 (mul (decimal 2 0) (add (mul q.w q.z) (mul q.x q.y)))
        (sub (decimal 1 0) (mul (decimal 2 0) (add (mul q.y q.y) (mul q.z q.z))))

  -- The last transforms that were seen.
  abbrev pub Seen : Type 0
  Seen = Option Transform × Option Transform

  unfoldable pub take_frames : List Frame → Seen → Seen
  take_frames [] seen = seen
  take_frames (map_odom tr ∷ frames) (m2o, o2b) = take_frames frames (some tr, o2b)
  take_frames (odom_base tr ∷ frames) (m2o, o2b) = take_frames frames (m2o, some tr)
  take_frames (other_frames ∷ frames) seen = take_frames frames seen

  unfoldable pub pose_of : Float → Transform → Transform → Pose
  pose_of t m2o o2b =
      let a = yaw_of m2o.rotation in
      record {
        t = t;
        x = sub (add m2o.x (mul (cos a) o2b.x)) (mul (sin a) o2b.y);
        y = add (add m2o.y (mul (sin a) o2b.x)) (mul (cos a) o2b.y);
        yaw = add a (yaw_of o2b.rotation);
      }

  abbrev add_pose : Float → Seen → List Pose → List Pose
  add_pose t (some m2o, some o2b) poses = pose_of t m2o o2b ∷ poses
  add_pose t _ poses = poses

  -- `poses`, from the /tf messages with their times.
  unfoldable pub poses_of : List (Float × List Frame) → Seen → List Pose
  poses_of [] seen = []
  poses_of ((t, frames) ∷ msgs) seen =
      let seen' = take_frames frames seen in add_pose t seen' (poses_of msgs seen')

  -- `min` by the distance in time: the first of the nearest.
  unfoldable pub nearest : Float → Pose → List Pose → Pose
  nearest t best [] = best
  nearest t best (p ∷ poses) =
      let moved = nearest t p poses in
      let kept = nearest t best poses in
      if lt_float (abs_float R (sub p.t t)) (abs_float R (sub best.t t)) then moved else kept

  pub record Info : Type 0 where
    pub resolution : Float
    pub origin_x : Float
    pub origin_y : Float

  pub record Scan : Type 0 where
    pub t : Float
    pub range_min : Float
    pub range_max : Float
    pub angle_min : Float
    pub angle_increment : Float
    pub ranges : List Float

  abbrev pub lidar_x : Float
  lidar_x = decimal 13 2

  unfoldable pub cell_of : Info → Float → Float → Cell
  cell_of info x y = (
    truncate (div (sub x info.origin_x) info.resolution),
    truncate (div (sub y info.origin_y) info.resolution),
  )

  -- A range that is finite and between the limits of the scan.
  unfoldable pub is_return : Scan → Float → Bool
  is_return scan rng =
      is_finite rng && (not (lt_float rng scan.range_min) && not (lt_float scan.range_max rng))

  -- The first and last cell of each beam of a scan, from the beam `i` on.
  unfoldable pub beams_from : Info → Pose → Scan → ℕ → List Float → List (Cell × Cell)
  beams_from info p scan i [] = []
  beams_from info p scan i (rng ∷ ranges) =
      let lx = add p.x (mul (cos p.yaw) lidar_x) in
      let ly = add p.y (mul (sin p.yaw) lidar_x) in
      let a = add (add scan.angle_min (mul (decimal i 0) scan.angle_increment)) p.yaw in
      let last = cell_of info (add lx (mul rng (cos a))) (add ly (mul rng (sin a))) in
      let rest = beams_from info p scan (suc i) ranges in
      if is_return scan rng then (cell_of info lx ly, last) ∷ rest else rest

  -- The counters after every scan; `first` and `poses` are the poses, of which there is one at least.
  unfoldable pub count_scans :
      Map → Info → Pose → List Pose → List Scan → List ℕ × List ℕ → List ℕ × List ℕ
  count_scans mp info first poses [] counts = counts
  count_scans mp info first poses (scan ∷ scans) counts =
      count_scans mp info first poses scans
        (count_beams mp (beams_from info (nearest scan.t first poses) scan 0 scan.ranges) counts)
