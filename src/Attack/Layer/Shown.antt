-- ===== src/Attack/Layer/Shown.antt =====
-- Every row stands in the layer.
use suburban_soc.Base.{
  String, ◌≡◌, refl, sym, ap, ◌∙◌, ◌⊎◌, inl, inr, Bool, true, some, List, [], ◌∷◌, map, arith,
  nat_eq, string_eq, beq_refl, eq_of_beq, Bool-cases, select, any, count,
}
use Prim.Native.String.{◌++◌ as ◌<>◌}
use mathlib.Core.Path.{subst}
use text.Mathlib.TextLemmas.{append-nil, nil-append, append_assoc}
use suburban_soc.Base.Text.{lower, dashed}
use suburban_soc.Attack.Harvest.{Row}
use suburban_soc.Attack.Layer.{
  clean_row, all_rows, joined, titled, suffixed, one_test, first_test, merged_comment, Entry,
  emitted, Layer, navigator_layer,
}
use suburban_soc.Attack.Layer.Groups.{belongs, entry_at, comment_at, layer_exact}

-- Some member of a list has a property.
abbrev pub Somewhere : {A : Type 0} → (A → Type 0) → List A → Type 0
Somewhere P [] = ⊥
Somewhere P (x ∷ xs) = P x ⊎ Somewhere P xs

Somewhere-map :
    {A B : Type 0} (P : A → Type 0) (Q : B → Type 0) (f : A → B) (xs : List A)
    → ((x : A) → P x → Q (f x))
    → Somewhere P xs
    → Somewhere Q (map f xs)
Somewhere-map P Q f [] g h = h
Somewhere-map P Q f (x ∷ xs) g (inl h) = inl (g x h)
Somewhere-map P Q f (x ∷ xs) g (inr h) = inr (Somewhere-map P Q f xs g h)

Somewhere-mono :
    {A : Type 0} (P Q : A → Type 0) (xs : List A)
    → ((x : A) → P x → Q x)
    → Somewhere P xs
    → Somewhere Q xs
Somewhere-mono P Q [] g h = h
Somewhere-mono P Q (x ∷ xs) g (inl h) = inl (g x h)
Somewhere-mono P Q (x ∷ xs) g (inr h) = inr (Somewhere-mono P Q xs g h)

-- A text stands in another.
abbrev pub Within : String → String → Type 0
Within s text = (before : String) × ((after : String) × (text ≡ before <> (s <> after)))

Within-refl : (s : String) → Within s s
Within-refl s = ("", ("", sym (nil-append (s <> "") ∙ append-nil s)))

Within-before : (s t front : String) → Within s t → Within s (front <> t)
Within-before s t front (p, (q, e)) =
    (front <> p, (q, ap (λ z. front <> z) e ∙ sym (append_assoc front p (s <> q))))

Within-after : (s t back : String) → Within s t → Within s (t <> back)
Within-after s t back (p, (q, e)) = (
  p,
  (
    q <> back,
    ap (λ z. z <> back) e ∙ append_assoc p (s <> q) back ∙ ap (λ z. p <> z) (append_assoc s q back),
  ),
)

joined-Within :
    (s : String) (t : Row → String) (r : Row) (rows : List Row)
    → Within s (t r)
    → Somewhere (λ q. q ≡ r) rows
    → Within s (joined (map t rows))
joined-Within s t r [] here h = elim h [ ]
joined-Within s t r (q ∷ []) here (inl e) = subst (λ z. Within s (t z)) (sym e) here
joined-Within s t r (q ∷ []) here (inr h) = elim h [ ]
joined-Within s t r (q ∷ p ∷ rows) here (inl e) =
    Within-after s (t q) ("; " <> joined (map t (p ∷ rows)))
      (subst (λ z. Within s (t z)) (sym e) here)
joined-Within s t r (q ∷ p ∷ rows) here (inr h) =
    Within-before s ("; " <> joined (map t (p ∷ rows))) (t q)
      (Within-before s (joined (map t (p ∷ rows))) "; " (joined-Within s t r (p ∷ rows) here h))

some_injective {ℓ} : {A : Type ℓ} {x y : A} → some x ≡ some y → x ≡ y
some_injective h = cc

-- The title of a row and the file of its rule.
abbrev pub label : Row → String
label r = r.title <> (" :: " <> r.rule)

merged_comment-Within :
    (r : Row) (rows : List Row) (c : String)
    → Somewhere (λ q. q ≡ r) rows
    → merged_comment rows ≡ some c
    → Within (label r) c
unfolding merged_comment
merged_comment-Within r rows c h made = elim (Bool-cases (all_rows clean_row rows)) [
  | inr dirty ↦ absurd (ground (arith, dirty, made))
  | inl clean ↦ elim (Bool-cases (one_test rows)) [
    | inl one ↦
        let e : suffixed (joined (map titled rows)) (first_test rows) ≡ c =
          some_injective (rw (clean, one) at made) in
        subst (Within (label r)) e (
          Within-after (label r) (joined (map titled rows)) _
            (joined-Within (label r) titled r rows (Within-refl (label r)) h))
    | inr several ↦
        let e : joined (map (λ q. suffixed (titled q) q.test) rows) ≡ c =
          some_injective (rw (clean, several) at made) in
        subst (Within (label r)) e (
          joined-Within (label r) (λ q. suffixed (titled q) q.test) r rows
            (Within-after (label r) (label r) _ (Within-refl (label r))) h)
  ]
]

select-Somewhere :
    (p : Row → Bool) (r : Row) (rows : List Row)
    → p r ≡ true
    → Somewhere (λ q. q ≡ r) rows
    → Somewhere (λ q. q ≡ r) (select p rows)
select-Somewhere p r [] h k = k
select-Somewhere p r (q ∷ rows) h (inl e) = rw (ap p e ∙ h) (inl e)
select-Somewhere p r (q ∷ rows) h (inr k) = elim (Bool-cases (p q)) [
  | inl chosen ↦ rw chosen (inr (select-Somewhere p r rows h k))
  | inr passed ↦ rw passed (select-Somewhere p r rows h k)
]

any-Somewhere :
    (p : Row → Bool) (r : Row) (rows : List Row)
    → p r ≡ true
    → Somewhere (λ q. q ≡ r) rows
    → any p rows ≡ true
any-Somewhere p r [] h k = elim k [ ]
any-Somewhere p r (q ∷ rows) h (inl e) = rw (ap p e ∙ h) refl
any-Somewhere p r (q ∷ rows) h (inr k) = rw (any-Somewhere p r rows h k) (ground arith)

-- The comment of a cell is that of its entry.
comment_at-Somewhere :
    (t a : String) (es : List Entry)
    → count (entry_at t a) es ≡ 1
    → Somewhere (λ e. (e.technique ≡ t) × (e.tactic ≡ a) × (comment_at t a es ≡ some e.comment)) es
comment_at-Somewhere t a [] h = absurd (omega (arith, h))
comment_at-Somewhere t a (e ∷ es) h = elim (Bool-cases (entry_at t a e)) [
  | inl here ↦ rw here (
      inl (
        eq_of_beq e.technique t (ground (arith, here)),
        eq_of_beq e.tactic a (ground (arith, here)),
        refl,
      ))
  | inr other_cell ↦
      let skips : comment_at t a (e ∷ es) ≡ comment_at t a es = rw other_cell refl in
      inr (
        Somewhere-mono
          (λ x. (x.technique ≡ t) × (x.tactic ≡ a) × (comment_at t a es ≡ some x.comment))
          (λ x. (x.technique ≡ t) × (x.tactic ≡ a) × (comment_at t a (e ∷ es) ≡ some x.comment)) es
          (λ x (same, column, text). (same, column, skips ∙ text))
          (comment_at-Somewhere t a es (ground (arith, h, other_cell))))
]

-- An entry of the layer is in the column of a row's tactic, under its technique, and its comment
-- holds the title of the row and the file of its rule.
abbrev pub Shows : Row → Entry → Type 0
Shows r e =
    (e.technique ≡ r.technique) × (e.tactic ≡ dashed (lower r.tactic)) × Within (label r) e.comment

-- Where the layer is built, each row is shown by an entry of it: under the row's technique, in the
-- column of its tactic, whose name is written in lower case with dashes, and with its title and the
-- file of its rule in the comment.
pub rows_shown :
    (rows : List Row) (l : Layer) (r : Row)
    → navigator_layer rows ≡ some l
    → Somewhere (λ q. q ≡ r) rows
    → Somewhere (Shows r) l.techniques
unfolding emitted
rows_shown rows l r h k =
    let (es, made, _, cells) = layer_exact rows l h in
    let t = r.technique in
    let a = r.tactic in
    let mine : belongs t a r ≡ true = ground (arith, beq_refl r.technique, beq_refl r.tactic) in
    let there : any (belongs t a) rows ≡ true = any-Somewhere (belongs t a) r rows mine k in
    let (once, comment) = cells t a in
    let one : count (entry_at t a) es ≡ 1 = rw there at once in
    let merged : comment_at t a es ≡ merged_comment (select (belongs t a) rows) =
      rw there at comment in
    subst (Somewhere (Shows r)) (sym made) (
      Somewhere-map (λ e. (e.technique ≡ t) × (e.tactic ≡ a) × (comment_at t a es ≡ some e.comment))
        (Shows r) emitted es
        (λ e (same, column, text). (
          same,
          ap (λ z. dashed (lower z)) column,
          merged_comment-Within r (select (belongs t a) rows) e.comment
              (select-Somewhere (belongs t a) r rows mine k) (sym merged ∙ text),
        ))
        (comment_at-Somewhere t a es one))
