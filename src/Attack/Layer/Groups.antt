-- ===== src/Attack/Layer/Groups.antt =====
-- What the cells of the matrix hold.
use suburban_soc.Base.{
  ℕ, suc, ◌+◌, ◌≤◌, String, ◌≡◌, refl, sym, ap, ◌∙◌, inl, inr, Bool, true, false, ◌&&◌, ◌||◌,
  Option, none, some, List, [], ◌∷◌, ◌++◌, map, arith, ◌==◌, nat_eq, string_eq, if◌then◌else◌,
  Bool-cases, length, select, any, count, length-append,
}
use mathlib.Core.Path.{subst}
use mathlib.Core.List.{append_assoc, append-nil}
use text.Mathlib.TextEquality.{eq_iff}
use suburban_soc.Attack.Harvest.{Row}
use suburban_soc.Attack.Layer.{
  Group, keyed, append_row, group_from, grouped, merged_comment, Entry, cons_entry, entries, Layer,
  layer_of, emitted, navigator_layer,
}

-- Whether a row belongs into a cell.
abbrev pub belongs : String → String → Row → Bool
belongs technique tactic r = r.technique == technique && r.tactic == tactic

-- The rows of a cell.
abbrev pub rows_at : String → String → List Group → List Row
rows_at t a [] = []
rows_at t a (g ∷ gs) = let rest = rows_at t a gs in if keyed t a g then g.rows else rest

abbrev pub total : List Group → ℕ
total [] = 0
total (g ∷ gs) = length g.rows + total gs

module _ (t a : String) (r : Row) where
  rows_at-append_row :
      (gs : List Group)
      → rows_at t a (append_row r gs)
        ≡ (if belongs t a r then rows_at t a gs ++ r ∷ [] else rows_at t a gs)
  unfolding append_row
  rows_at-append_row [] = refl
  rows_at-append_row (g ∷ gs) = ground (
    arith,
    eq_iff g.technique r.technique,
    eq_iff g.tactic r.tactic,
    eq_iff g.technique t,
    eq_iff g.tactic a,
    eq_iff r.technique t,
    eq_iff r.tactic a,
    rows_at-append_row gs,
  )

  count-append_row_other :
      (gs : List Group)
      → belongs t a r ≡ false
      → count (keyed t a) (append_row r gs) ≡ count (keyed t a) gs
  unfolding append_row
  count-append_row_other [] h = rw h refl
  count-append_row_other (g ∷ gs) h = ground (
    arith,
    eq_iff g.technique r.technique,
    eq_iff g.tactic r.tactic,
    eq_iff g.technique t,
    eq_iff g.tactic a,
    eq_iff r.technique t,
    eq_iff r.tactic a,
    count-append_row_other gs,
  )

  count-append_row-le :
      (gs : List Group) → count (keyed t a) gs ≤ 1 → count (keyed t a) (append_row r gs) ≤ 1
  unfolding append_row
  count-append_row-le [] h = ground arith
  count-append_row-le (g ∷ gs) h = ground (
    arith,
    eq_iff g.technique r.technique,
    eq_iff g.tactic r.tactic,
    eq_iff g.technique t,
    eq_iff g.tactic a,
    eq_iff r.technique t,
    eq_iff r.tactic a,
    count-append_row_other gs,
    count-append_row-le gs,
  )

total-append_row : (r : Row) (gs : List Group) → total (append_row r gs) ≡ suc (total gs)
unfolding append_row
total-append_row r [] = omega arith
total-append_row r (g ∷ gs) = ground (arith, length-append g.rows (r ∷ []), total-append_row r gs)

some_injective {ℓ} : {A : Type ℓ} {x y : A} → some x ≡ some y → x ≡ y
some_injective h = cc

-- The comment of the first entry of a cell.
head_comment :
    (c : String) (o : Option String) (rows rest : List Row) (here later : Bool)
    → merged_comment rows ≡ some c
    → o ≡ (if later then merged_comment rest else none)
    → (if here then some c else o)
      ≡ (if here || later then merged_comment (if here then rows else rest) else none)
head_comment c o rows rest true later m at = sym m
head_comment c o rows rest false later m at = at

count-zero {ℓ} : {A : Type ℓ} (p : A → Bool) (xs : List A) → count p xs ≡ 0 → any p xs ≡ false
count-zero p [] h = refl
count-zero p (x ∷ xs) h = ground (arith, count-zero p xs)

any-append_row :
    (t a : String) (r : Row) (gs : List Group)
    → any (keyed t a) (append_row r gs) ≡ (belongs t a r || any (keyed t a) gs)
unfolding append_row
any-append_row t a r [] = ground arith
any-append_row t a r (g ∷ gs) = ground (
  arith,
  eq_iff g.technique r.technique,
  eq_iff g.tactic r.tactic,
  eq_iff g.technique t,
  eq_iff g.tactic a,
  eq_iff r.technique t,
  eq_iff r.tactic a,
  any-append_row t a r gs,
)

module _ (t a : String) where
  rows_at-group_from :
      (rows : List Row) (gs : List Group)
      → rows_at t a (group_from gs rows) ≡ rows_at t a gs ++ select (belongs t a) rows
  unfolding group_from
  rows_at-group_from [] gs = sym (append-nil _)
  rows_at-group_from (r ∷ rows) gs = elim (Bool-cases (belongs t a r)) [
    | inl here ↦
        rw (rows_at-group_from rows (append_row r gs), rows_at-append_row t a r gs, here)
          (append_assoc (rows_at t a gs) (r ∷ []) (select (belongs t a) rows))
    | inr other ↦
        rw (rows_at-group_from rows (append_row r gs), rows_at-append_row t a r gs, other) refl
  ]

  count-group_from-le :
      (rows : List Row) (gs : List Group)
      → count (keyed t a) gs ≤ 1
      → count (keyed t a) (group_from gs rows) ≤ 1
  unfolding group_from
  count-group_from-le [] gs h = h
  count-group_from-le (r ∷ rows) gs h =
      count-group_from-le rows (append_row r gs) (count-append_row-le t a r gs h)

  any-group_from :
      (rows : List Row) (gs : List Group)
      → any (keyed t a) (group_from gs rows) ≡ (any (belongs t a) rows || any (keyed t a) gs)
  unfolding group_from
  any-group_from [] gs = refl
  any-group_from (r ∷ rows) gs =
      ground (arith, any-group_from rows (append_row r gs), any-append_row t a r gs)

  -- The entries of a cell, and the comment of the first of them.
  abbrev pub entry_at : Entry → Bool
  entry_at e = e.technique == t && e.tactic == a

  abbrev pub comment_at : List Entry → Option String
  comment_at [] = none
  comment_at (e ∷ es) = let rest = comment_at es in if entry_at e then some e.comment else rest

  -- The entries of some cells: the same keys, and the comment of each.
  abbrev Entered : List Group → List Entry → Type 0
  Entered gs es =
      (count entry_at es ≡ count (keyed t a) gs)
      × (comment_at es ≡ (if any (keyed t a) gs then merged_comment (rows_at t a gs) else none))

  cons_entry-Entered :
      (g : Group) (gs : List Group) (c : Option String) (rest : Option (List Entry))
      (es : List Entry)
      → merged_comment g.rows ≡ c
      → ((r : List Entry) → rest ≡ some r → Entered gs r)
      → cons_entry g c rest ≡ some es
      → Entered (g ∷ gs) es
  cons_entry-Entered g gs none rest es m ih h = cc
  cons_entry-Entered g gs (some c) none es m ih h = cc
  cons_entry-Entered g gs (some c) (some r) es m ih h =
      let (n, at) = ih r refl in
      subst (Entered (g ∷ gs)) (some_injective h) (
        ap (λ k. (if keyed t a g then 1 else 0) + k) n,
        head_comment c (comment_at r) g.rows (rows_at t a gs) (keyed t a g) (any (keyed t a) gs) m
            at,
      )

  entries-Entered : (gs : List Group) (es : List Entry) → entries gs ≡ some es → Entered gs es
  unfolding entries
  entries-Entered [] es h = subst (Entered []) (some_injective h) (refl, refl)
  entries-Entered (g ∷ gs) es h =
      cons_entry-Entered g gs (merged_comment g.rows) (entries gs) es refl (entries-Entered gs) h

count-any {ℓ} :
    {A : Type ℓ} (p : A → Bool) (xs : List A)
    → count p xs ≤ 1
    → count p xs ≡ (if any p xs then 1 else 0)
count-any p [] h = refl
count-any p (x ∷ xs) h = ground (arith, count-any p xs, count-zero p xs)

layer_of-some :
    (rows : List Row) (o : Option (List Entry)) (l : Layer)
    → layer_of rows o ≡ some l
    → (es : List Entry) × (o ≡ some es)
      × (l.techniques ≡ map emitted es)
      × (l.detections ≡ length rows)
layer_of-some rows none l h = cc
layer_of-some rows (some es) l h =
    let e = some_injective h in
    (es, refl, sym (ap (λ k. k.techniques) e), sym (ap (λ k. k.detections) e))

-- The layer is made of cells: exactly one for each technique and tactic that some row pairs, and none
-- for any other, whose comment merges all rows of that pair, in their order. The number of detections
-- is that of the rows.
pub layer_exact :
    (rows : List Row) (l : Layer)
    → navigator_layer rows ≡ some l
    → (es : List Entry) × (l.techniques ≡ map emitted es)
      × (l.detections ≡ length rows)
      × ((t a : String)
          → (count (entry_at t a) es ≡ (if any (belongs t a) rows then 1 else 0))
            × (comment_at t a es ≡ (
                if any (belongs t a) rows
                then merged_comment (select (belongs t a) rows)
                else none)))
unfolding navigator_layer grouped
layer_exact rows l h =
    let (es, made, shown, n) = layer_of-some rows (entries (grouped rows)) l h in
    (
      es,
      shown,
      n,
      λ t a.
          let (keys, comment) = entries-Entered t a (grouped rows) es made in
          let seen : any (keyed t a) (grouped rows) ≡ any (belongs t a) rows =
            ground (arith, any-group_from t a rows []) in
          let once =
            count-any (keyed t a) (grouped rows) (count-group_from-le t a rows [] (omega arith)) in
          (rw seen at (keys ∙ once), rw (seen, rows_at-group_from t a rows []) at comment),
    )
