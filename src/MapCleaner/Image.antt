-- ===== src/MapCleaner/Image.antt =====
-- The image that is written: where each cell goes, and which obstacles stay.
use ros2_ws_gp.Common.{
  ℕ, ◌+◌, ◌-◌, ◌*◌, ◌<◌, ◌≡◌, ap, ◌∙◌, ◌⊎◌, false, some, List, get_elem?, arith,
}
use ros2_ws_gp.Common.Int.{pos}
use ros2_ws_gp.Override.Floats.{Floats}
use ros2_ws_gp.Arena.Raster.{get-rows_from}
use ros2_ws_gp.MapCleaner.{Map, count, is_rare, is_stale, out_value, image}

module _ (R : Floats) where
  -- The row of the map `r` from below is the row of the image `r` from below.
  pub image-flip :
      (mp : Map) (counts : List ℕ × List ℕ) (r c : ℕ)
      → r < mp.height
      → c < mp.width
      → get_elem? (image R mp counts) ((mp.height - 1 - r) * mp.width + c)
        ≡ some (out_value R mp counts (r * mp.width + c))
  unfolding image
  image-flip mp counts r c h k =
      get-rows_from (λ top col. out_value R mp counts ((mp.height - 1 - top) * mp.width + col))
        mp.width 0 mp.height (mp.height - 1 - r) c (mp.height - 1 - r) (omega arith) k (omega arith)
      ∙ ap (λ row. some (out_value R mp counts (row * mp.width + c))) (omega arith)

  kept-stale :
      (mp : Map) (seen hit : List ℕ) (i : ℕ)
      → (count i seen < 50) ⊎ (is_rare R (count i hit) (count i seen) ≡ false)
      → is_stale R mp (seen, hit) i ≡ false
  unfolding is_stale
  kept-stale mp seen hit i h = ground arith

  -- An obstacle that was looked through fewer than 50 times, or that returned too often, stays black in
  -- the image, at its place.
  pub image-kept :
      (mp : Map) (seen hit : List ℕ) (r c v : ℕ)
      → r < mp.height
      → c < mp.width
      → get_elem? mp.cells (r * mp.width + c) ≡ some (pos (65 + v))
      → (count (r * mp.width + c) seen < 50)
        ⊎ (is_rare R (count (r * mp.width + c) hit) (count (r * mp.width + c) seen) ≡ false)
      → get_elem? (image R mp (seen, hit)) ((mp.height - 1 - r) * mp.width + c) ≡ some 0
  unfolding out_value
  image-kept mp seen hit r c v h k occupied kept =
      let i = r * mp.width + c in
      image-flip mp (seen, hit) r c h k
      ∙ rw (kept-stale mp seen hit i kept, occupied) (ground arith)
