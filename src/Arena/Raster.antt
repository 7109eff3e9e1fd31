-- ===== src/Arena/Raster.antt =====
-- The order of the pixels in the image.
use ros2_ws_gp.Common.{
  ℕ, zero, suc, ◌+◌, ◌*◌, ◌<◌, ◌≡◌, refl, ap, ◌∙◌, some, List, [], ◌∷◌, ◌++◌, length, length-append,
  get_elem?, arith,
}
use ros2_ws_gp.Arena.{row_from, rows_from}

get-left : (xs ys : List ℕ) (i : ℕ) → i < length xs → get_elem? (xs ++ ys) i ≡ get_elem? xs i
get-left [] ys i h = absurd (omega arith)
get-left (x ∷ xs) ys zero h = refl
get-left (x ∷ xs) ys (suc i) h = get-left xs ys i (omega arith)

get-right : (xs ys : List ℕ) (i j : ℕ) → j ≡ length xs + i → get_elem? (xs ++ ys) j ≡ get_elem? ys i
get-right [] ys i j e = ap (get_elem? ys) (omega arith)
get-right (x ∷ xs) ys i zero e = absurd (omega arith)
get-right (x ∷ xs) ys i (suc j) e = get-right xs ys i j (omega arith)

length-row_from : (f : ℕ → ℕ) (c n : ℕ) → length (row_from f c n) ≡ n
length-row_from f c zero = refl
length-row_from f c (suc n) = ap suc (length-row_from f (suc c) n)

get-row_from :
    (f : ℕ → ℕ) (c n i k : ℕ) → i < n → k ≡ c + i → get_elem? (row_from f c n) i ≡ some (f k)
get-row_from f c zero i k h e = absurd (omega arith)
get-row_from f c (suc n) zero k h e = ap (λ m. some (f m)) (omega arith)
get-row_from f c (suc n) (suc i) k h e = get-row_from f (suc c) n i k (omega arith) (omega arith)

row_step : (i w c : ℕ) → suc i * w + c ≡ w + (i * w + c)
row_step i w c = grind arith

length-rows_from : (f : ℕ → ℕ → ℕ) (w r n : ℕ) → length (rows_from f w r n) ≡ n * w
unfolding rows_from
length-rows_from f w r zero = omega arith
length-rows_from f w r (suc n) =
    length-append (row_from (f r) 0 w) (rows_from f w (suc r) n)
    ∙ grind (arith, length-row_from (f r) 0 w, length-rows_from f w (suc r) n)

pub get-rows_from :
    (f : ℕ → ℕ → ℕ) (w r n i c k : ℕ)
    → i < n
    → c < w
    → k ≡ r + i
    → get_elem? (rows_from f w r n) (i * w + c) ≡ some (f k c)
unfolding rows_from
get-rows_from f w r zero i c k h small e = absurd (omega arith)
get-rows_from f w r (suc n) zero c k h small e =
    get-left (row_from (f r) 0 w) (rows_from f w (suc r) n) (0 * w + c)
      (omega (arith, length-row_from (f r) 0 w))
    ∙ get-row_from (f r) 0 w (0 * w + c) c (omega arith) (omega arith)
    ∙ ap (λ m. some (f m c)) (omega arith)
get-rows_from f w r (suc n) (suc i) c k h small e =
    get-right (row_from (f r) 0 w) (rows_from f w (suc r) n) (i * w + c) (suc i * w + c)
      (row_step i w c ∙ omega (arith, length-row_from (f r) 0 w))
    ∙ get-rows_from f w (suc r) n i c k (omega arith) small (omega arith)
