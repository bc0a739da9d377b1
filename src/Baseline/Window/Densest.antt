-- ===== src/Baseline/Window/Densest.antt =====
-- `window_max` against its description: the most events in any half-open window.
use suburban_soc.Base.{
  ℕ, zero, suc, ◌+◌, ◌-◌, ◌≤◌, ◌≡◌, refl, sym, ◌∙◌, inl, inr, Bool, ◌&&◌, List, [], ◌∷◌, arith, ltb,
  leb, nat_eq, string_eq, All-mono, Bool-cases, count, All, All-of,
}
use suburban_soc.Baseline.Window.{
  insert, sorted, insert, sorted, leading, drop, bisect_left, max, slide, window_max, insert,
  sorted,
}

abbrev pub Ascending : List ℕ → Type 0
Ascending [] = Unit
Ascending (x ∷ xs) = All (λ y. x ≤ y) xs × Ascending xs

-- Whether an event lies in the window that starts at `t`.
abbrev pub within : (t width x : ℕ) → Bool
within t width x = leb t x && ltb x (t + width)

abbrev pub in_window : List ℕ → (width t : ℕ) → ℕ
in_window ts width t = count (within t width) ts

-- Every suffix, from its first element.
densest : ℕ → List ℕ → ℕ
densest width [] = 0
densest width (t ∷ ts) = max (leading (t + width) (t ∷ ts)) (densest width ts)

leading-drop : (x d : ℕ) (l : List ℕ) → d ≤ leading x l → d + leading x (drop d l) ≡ leading x l
unfolding leading drop
leading-drop x zero l h = omega arith
leading-drop x (suc d) [] h = omega arith
leading-drop x (suc d) (y ∷ ys) h = ground (arith, leading-drop x d ys)

leading_mono : (x y : ℕ) (l : List ℕ) → x ≤ y → leading x l ≤ leading y l
unfolding leading
leading_mono x y [] h = omega arith
leading_mono x y (z ∷ zs) h = ground (arith, leading_mono x y zs)

-- A search from inside the window finds its end.
bisect_left-within :
    (ts : List ℕ) (x i j : ℕ) (rest : List ℕ)
    → ((n : ℕ) → drop (i + n) ts ≡ drop n rest)
    → j - i ≤ leading x rest
    → bisect_left ts x (max j i) ≡ i + leading x rest
unfolding bisect_left
bisect_left-within ts x i j rest suffix h =
    let start : max j i ≡ i + (j - i) = ground arith in
    rw (start, suffix (j - i)) (omega (arith, leading-drop x (j - i) rest h))

max_assoc : (a b c : ℕ) → max (max a b) c ≡ max a (max b c)
max_assoc a b c = ground arith

-- From one element to the next, the search starts inside the window.
next_inside :
    (width t : ℕ) (rest : List ℕ) (i : ℕ)
    → All (λ y. t ≤ y) rest
    → All (λ y. (i + leading (t + width) (t ∷ rest)) - (i + 1) ≤ leading (y + width) rest) rest
unfolding leading
next_inside width t rest i h =
    All-mono (λ y le. ground (arith, leading_mono (t + width) (y + width) rest)) rest h

next_suffix :
    (ts : List ℕ) (i t : ℕ) (rest : List ℕ)
    → ((n : ℕ) → drop (i + n) ts ≡ drop n (t ∷ rest))
    → (n : ℕ) → drop (i + 1 + n) ts ≡ drop n rest
unfolding drop
next_suffix ts i t rest suffix n =
    let e : i + 1 + n ≡ i + suc n = omega arith in rw e (suffix (suc n))

slide-eq-densest :
    (ts : List ℕ) (width : ℕ) (rest : List ℕ) (i j best : ℕ)
    → Ascending rest
    → ((n : ℕ) → drop (i + n) ts ≡ drop n rest)
    → All (λ t. j - i ≤ leading (t + width) rest) rest
    → slide ts width rest i j best ≡ max best (densest width rest)
unfolding slide densest
slide-eq-densest ts width [] i j best h suffix inside = ground arith
slide-eq-densest ts width (t ∷ rest) i j best h suffix inside =
    let m = leading (t + width) (t ∷ rest) in
    let found : bisect_left ts (t + width) (max j i) ≡ i + m =
      bisect_left-within ts (t + width) i j (t ∷ rest) suffix inside.0 in
    let gained : i + m - i ≡ m = omega arith in
    rw (found, gained)
      (slide-eq-densest ts width rest (i + 1) (i + m) (max best m) h.1
          (next_suffix ts i t rest suffix) (next_inside width t rest i h.0)
        ∙ max_assoc best m (densest width rest))

window_max-eq-densest :
    (ts : List ℕ) (width : ℕ) → Ascending ts → window_max ts width ≡ densest width ts
unfolding window_max
window_max-eq-densest ts width h =
    slide-eq-densest ts width ts 0 0 0 h (λ n. let e : 0 + n ≡ n = omega arith in rw e refl)
      (All-of (λ t. omega arith) ts)
    ∙ (ground arith)

none_within :
    (t width z : ℕ) (l : List ℕ) → t + width ≤ z → All (λ y. z ≤ y) l → in_window l width t ≡ 0
none_within t width z [] le h = refl
none_within t width z (y ∷ ys) le h = ground (arith, none_within t width z ys)

in_window-le-leading :
    (t width z : ℕ) (l : List ℕ) → t + width ≤ z → Ascending l → in_window l width t ≤ leading z l
unfolding leading
in_window-le-leading t width z [] le h = omega arith
in_window-le-leading t width z (y ∷ ys) le h = elim (Bool-cases (ltb y z)) [
  | inl below ↦ ground (arith, in_window-le-leading t width z ys)
  | inr above ↦ ground (arith, none_within t width y ys)
]

in_window-le-densest :
    (t width : ℕ) (l : List ℕ) → Ascending l → in_window l width t ≤ densest width l
unfolding densest
in_window-le-densest t width [] h = omega arith
in_window-le-densest t width (x ∷ xs) h = elim (Bool-cases (ltb x t)) [
  | inl before ↦ ground (arith, in_window-le-densest t width xs)
  | inr here ↦ ground (arith, in_window-le-leading t width (x + width) (x ∷ xs))
]

leading-eq-in_window :
    (t width : ℕ) (l : List ℕ)
    → All (λ y. t ≤ y) l
    → Ascending l
    → leading (t + width) l ≡ in_window l width t
unfolding leading
leading-eq-in_window t width [] h a = refl
leading-eq-in_window t width (y ∷ ys) h a = elim (Bool-cases (ltb y (t + width))) [
  | inl inside ↦ ground (arith, leading-eq-in_window t width ys)
  | inr beyond ↦ ground (arith, none_within t width y ys)
]

densest-attained :
    (width : ℕ) (l : List ℕ) → Ascending l → (t : ℕ) × (in_window l width t ≡ densest width l)
unfolding densest
densest-attained width [] h = (0, refl)
densest-attained width (x ∷ xs) h =
    elim (Bool-cases (ltb (leading (x + width) (x ∷ xs)) (densest width xs))) [
      | inl later ↦
          let (t, e) = densest-attained width xs h.1 in
          (t, ground (arith, e, in_window-le-densest t width (x ∷ xs) h))
      | inr first ↦ (x, ground (arith, leading-eq-in_window x width (x ∷ xs)))
    ]

All-insert : (z x : ℕ) (l : List ℕ) → z ≤ x → All (λ y. z ≤ y) l → All (λ y. z ≤ y) (insert x l)
unfolding insert
All-insert z x [] le h = (le, tt)
All-insert z x (y ∷ ys) le h = elim (Bool-cases (ltb y x)) [
  | inl before ↦ rw before (h.0, All-insert z x ys le h.1)
  | inr here ↦ rw here (le, h)
]

insert-Ascending : (x : ℕ) (l : List ℕ) → Ascending l → Ascending (insert x l)
unfolding insert
insert-Ascending x [] h = (tt, tt)
insert-Ascending x (y ∷ ys) h = elim (Bool-cases (ltb y x)) [
  | inl before ↦ rw before (All-insert y x ys (ground arith) h.0, insert-Ascending x ys h.1)
  | inr here ↦
      let le : x ≤ y = ground arith in rw here ((le, All-mono (λ z l. omega arith) ys h.0), h)
]

sorted-Ascending : (l : List ℕ) → Ascending (sorted l)
unfolding sorted
sorted-Ascending [] = tt
sorted-Ascending (x ∷ xs) = insert-Ascending x (sorted xs) (sorted-Ascending xs)

count-insert : (p : ℕ → Bool) (x : ℕ) (l : List ℕ) → count p (insert x l) ≡ count p (x ∷ l)
unfolding insert
count-insert p x [] = refl
count-insert p x (y ∷ ys) = elim (Bool-cases (ltb y x)) [
  | inl before ↦ rw before (omega (arith, count-insert p x ys))
  | inr here ↦ rw here refl
]

count-sorted : (p : ℕ → Bool) (l : List ℕ) → count p (sorted l) ≡ count p l
unfolding sorted
count-sorted p [] = refl
count-sorted p (x ∷ xs) = count-insert p x (sorted xs) ∙ omega (arith, count-sorted p xs)

-- `window_max` of the sorted times is the largest number of events in a window of that width: no
-- window has more, wherever it starts, and some window has as many.
pub window_max_exact :
    (ts : List ℕ) (width : ℕ)
    → ((t : ℕ) → in_window ts width t ≤ window_max (sorted ts) width)
      × ((t : ℕ) × (in_window ts width t ≡ window_max (sorted ts) width))
window_max_exact ts width =
    let a = sorted-Ascending ts in
    let same = window_max-eq-densest (sorted ts) width a in
    let (t, e) = densest-attained width (sorted ts) a in
    (
      λ u. omega (
        arith,
        same,
        count-sorted (within u width) ts,
        in_window-le-densest u width (sorted ts) a,
      ),
      (t, sym (count-sorted (within t width) ts) ∙ e ∙ sym same),
    )
