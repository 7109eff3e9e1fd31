-- ===== src/Arena.antt =====
-- make_arena.py: the obstacles of the simulated arena, and the map that is drawn from them.
pub mod Raster
use ros2_ws_gp.Common.{
  ℕ, zero, suc, ◌+◌, Bool, true, false, not, ◌&&◌, Option, none, some, List, [], ◌∷◌, ◌++◌, any,
  if◌then◌else◌,
}
use ros2_ws_gp.Override.Floats.{Floats, zero_float, abs_float}

-- `range(k, k + n)`
abbrev pub range_from : ℕ → ℕ → List ℕ
range_from k zero = []
range_from k (suc n) = k ∷ range_from (suc k) n

-- One row of pixels, and the rows from `r` on: each pixel of the buffer is set once, in this order.
abbrev pub row_from : (ℕ → ℕ) → ℕ → ℕ → List ℕ
row_from pixel c zero = []
row_from pixel c (suc n) = pixel c ∷ row_from pixel (suc c) n

unfoldable pub rows_from : (ℕ → ℕ → ℕ) → ℕ → ℕ → ℕ → List ℕ
rows_from pixel width r zero = []
rows_from pixel width r (suc n) = row_from (pixel r) 0 width ++ rows_from pixel width (suc r) n

abbrev pub free : ℕ
free = 254

abbrev pub occ : ℕ
occ = 0

abbrev pub unknown : ℕ
unknown = 205

abbrev pub subsample : ℕ
subsample = 3

-- `round` gives the whole number of pixels.
module _ (R : Floats) (round : R.Float → ℕ) where
  open R use {Float, decimal, add, sub, mul, div, neg, ltb}

  -- An entry of `OBSTACLES`.
  pub data Obstacle : Type 0 where
    box : Float → Float → Float → Float → Obstacle
    cyl : Float → Float → Float → Obstacle

  -- `a <= b`, of finite values
  abbrev at_most : Float → Float → Bool
  at_most a b = not (ltb b a)

  unfoldable pub inside : Obstacle → Float → Float → Bool
  inside (box cx cy sx sy) x y =
      at_most (abs_float R (sub x cx)) (div sx (decimal 2 0))
      && at_most (abs_float R (sub y cy)) (div sy (decimal 2 0))
  inside (cyl cx cy r) x y =
      at_most (add (mul (sub x cx) (sub x cx)) (mul (sub y cy) (sub y cy))) (mul r r)

  abbrev pub half_x : Bool → Float
  half_x corridor = if corridor then decimal 90 1 else decimal 80 1

  abbrev pub half_y : Bool → Float
  half_y corridor = if corridor then decimal 11 1 else decimal 60 1

  abbrev pub wall_t : Float
  wall_t = decimal 15 2

  abbrev pub res : Float
  res = decimal 5 2

  abbrev twice : Float → Float
  twice x = mul (decimal 2 0) x

  -- The four walls around.
  unfoldable pub perimeter : Bool → List Obstacle
  perimeter corridor =
      let hx = half_x corridor in
      let hy = half_y corridor in
      let out_x = add hx (div wall_t (decimal 2 0)) in
      let out_y = add hy (div wall_t (decimal 2 0)) in
      let long_x = add (twice hx) (twice wall_t) in
      let long_y = add (twice hy) (twice wall_t) in
      box (decimal 0 1) out_y long_x wall_t
      ∷ box (decimal 0 1) (neg out_y) long_x wall_t
      ∷ box out_x (decimal 0 1) wall_t long_y
      ∷ box (neg out_x) (decimal 0 1) wall_t long_y
      ∷ []

  unfoldable pub interior : List Obstacle
  interior =
      box (neg (decimal 20 1)) (decimal 25 1) (decimal 40 1) wall_t
      ∷ box (decimal 30 1) (neg (decimal 20 1)) wall_t (decimal 40 1)
      ∷ cyl (decimal 40 1) (decimal 30 1) (decimal 35 2)
      ∷ cyl (neg (decimal 40 1)) (neg (decimal 30 1)) (decimal 35 2)
      ∷ cyl (decimal 55 1) (neg (decimal 35 1)) (decimal 35 2)
      ∷ cyl (neg (decimal 60 1)) (decimal 40 1) (decimal 35 2)
      ∷ []

  -- `OBSTACLES`, with `--corridor` or without
  unfoldable pub obstacles : Bool → List Obstacle
  obstacles corridor = if corridor then perimeter true else perimeter false ++ interior

  abbrev pub pixels : Float → ℕ
  pixels half = round (div (twice (add half (decimal 10 1))) res)

  unfoldable pub width : Bool → ℕ
  width corridor = pixels (half_x corridor)

  unfoldable pub height : Bool → ℕ
  height corridor = pixels (half_y corridor)

  -- `(-1 + 2 * k) * step / 2`, of the samples of a pixel
  unfoldable pub offset : ℕ → Float
  offset k =
      div (mul (sub (decimal (k + k) 0) (decimal 1 0)) (div res (decimal subsample 0)))
        (decimal 2 0)

  -- Whether a sample of the pixel lies in an obstacle.
  unfoldable pub hit : List Obstacle → Float → Float → Bool
  hit shapes cx cy =
      any
        (λ dx.
          any (λ dy. any (λ o. inside o (add cx (offset dx)) (add cy (offset dy))) shapes)
            (range_from 0 subsample))
        (range_from 0 subsample)

  unfoldable pub pixel : Bool → ℕ → ℕ → ℕ → ℕ
  pixel corridor rows r c =
      let cx =
        add (neg (add (half_x corridor) (decimal 10 1)))
          (mul (add (decimal c 0) (decimal 5 1)) res) in
      let cy =
        add (neg (add (half_y corridor) (decimal 10 1)))
          (mul (add (sub (decimal rows 0) (add (decimal 1 0) (decimal r 0))) (decimal 5 1)) res) in
      if hit (obstacles corridor) cx cy
      then occ
      else if ltb (abs_float R cx) (add (half_x corridor) wall_t)
          && ltb (abs_float R cy) (add (half_y corridor) wall_t)
      then free
      else unknown

  -- `write_map`: the pixels of the image.
  unfoldable pub write_map : Bool → List ℕ
  write_map corridor =
      rows_from (pixel corridor (height corridor)) (width corridor) 0 (height corridor)
