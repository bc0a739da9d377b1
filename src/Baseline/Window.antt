-- ===== src/Baseline/Window.antt =====
-- `window_max`, with `bisect_left` and `sorted` of Python on numbers.
pub mod Densest
use suburban_soc.Base.{ℕ, zero, suc, ◌+◌, ◌-◌, ◌≡◌, refl, List, [], ◌∷◌, ltb, if◌then◌else◌}

-- How many elements stand before the first that is not below `x`.
pub leading : ℕ → List ℕ → ℕ
leading x [] = 0
leading x (y ∷ ys) = let rest = suc (leading x ys) in if ltb y x then rest else 0

unfoldable pub drop {ℓ} : {A : Type ℓ} → ℕ → List A → List A
drop zero xs = xs
drop (suc n) [] = []
drop (suc n) (x ∷ xs) = drop n xs

-- `bisect_left(ts, x, lo=lo)` of an ascending list
unfoldable pub bisect_left : List ℕ → (x lo : ℕ) → ℕ
unfolding leading drop
bisect_left ts x lo = lo + leading x (drop lo ts)

abbrev pub max : ℕ → ℕ → ℕ
max a b = if ltb a b then b else a

-- The `for`, over the elements from index `i` on.
unfoldable pub slide : (ts : List ℕ) (width : ℕ) (rest : List ℕ) (i j best : ℕ) → ℕ
unfolding bisect_left
slide ts width [] i j best = best
slide ts width (t ∷ rest) i j best =
    let j' = bisect_left ts (t + width) (max j i) in
    slide ts width rest (i + 1) j' (max best (j' - i))

unfoldable pub window_max : List ℕ → (width : ℕ) → ℕ
unfolding slide
window_max ts width = slide ts width ts 0 0 0

unfoldable pub insert : ℕ → List ℕ → List ℕ
insert x [] = x ∷ []
insert x (y ∷ ys) = let rest = insert x ys in if ltb y x then y ∷ rest else x ∷ y ∷ ys

-- `sorted`
unfoldable pub sorted : List ℕ → List ℕ
unfolding insert
sorted [] = []
sorted (x ∷ xs) = insert x (sorted xs)

slides : window_max (sorted (9 ∷ 1 ∷ 2 ∷ 8 ∷ 4 ∷ 11 ∷ [])) 4 ≡ 3
unfolding window_max sorted
slides = refl
