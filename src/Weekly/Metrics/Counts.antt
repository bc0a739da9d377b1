-- ===== src/Weekly/Metrics/Counts.antt =====
-- Each figure of the report is the number that it stands for.
use Prim.Native.Nat.{◌/◌, ◌%◌}
use suburban_soc.Slo.{rounded, half_even}
use suburban_soc.Weekly.Metrics.{
  nist_functions, function_of, tag_to_nist, Clock, Source, samples, Counts, no_counts, bump,
  bump_all, nist_counts, sum, average, fetch_and_calculate_metrics,
}
use suburban_soc.Base.{
  ℕ, ◌+◌, ◌*◌, ◌≤◌, ◌<◌, String, ◌≡◌, refl, sym, ap, ◌∙◌, ◌⊎◌, inl, inr, Bool, true, false, Option,
  none, some, List, [], ◌∷◌, map, arith, ◌==◌, nat_eq, string_eq, beq_refl, ne_of_beq, eq_of_beq,
  if◌then◌else◌, Bool-cases, length, any, count,
}
use mathlib.Core.Path.{subst}
use native.Mathlib.Nat.{mod-lt, div-add-mod'}

-- The count under a function's name.
abbrev pub count_of : String → Counts → ℕ
count_of func [] = 0
count_of func ((f, n) ∷ counts) = if f == func then n else count_of func counts

-- The number of tags, of all alerts, that name the function.
abbrev pub names : String → String → Bool
names func tag = elim (function_of tag) [ none ↦ false | some f ↦ f == func ]

abbrev pub tally : String → List Source → ℕ
tally func [] = 0
tally func (src ∷ hits) = count (names func) src.tags + tally func hits

abbrev has : String → Counts → Bool
has func counts = any (λ c. c.0 == func) counts

eq_sym : (f g : String) → (f == g) ≡ true → (g == f) ≡ true
eq_sym f g h = rw (eq_of_beq f g h) (beq_refl g)

-- One count more, for a function that has one.
bump-count_of :
    (func other : String) (counts : Counts)
    → has func counts ≡ true
    → count_of func (bump other counts) ≡ count_of func counts + (if other == func then 1 else 0)
unfolding bump
bump-count_of func other [] h = cc
bump-count_of func other ((f, n) ∷ counts) h = elim (Bool-cases (f == other)) [
  | inl same ↦ rw (same, eq_of_beq f other same) (ground arith)
  | inr differ ↦ elim (Bool-cases (f == func)) [
    | inl here ↦ elim (Bool-cases (other == func)) [
      | inl e ↦
          absurd (ne_of_beq f other differ (eq_of_beq f func here ∙ sym (eq_of_beq other func e)))
      | inr e ↦ rw (differ, here, e) (omega arith)
    ]
    | inr there ↦ rw (differ, there) (bump-count_of func other counts (ground (arith, h, there)))
  ]
]

half_even-cases :
    (q r b : ℕ) → ((half_even q r b ≡ q) × (2 * r ≤ b)) ⊎ ((half_even q r b ≡ q + 1) × (b ≤ 2 * r))
half_even-cases q r b = ground arith

half_even-near :
    (q r b : ℕ)
    → r < b
    → (2 * (half_even q r b * b) ≤ 2 * (q * b + r) + b)
      × (2 * (q * b + r) ≤ 2 * (half_even q r b * b) + b)
half_even-near q r b h = elim (half_even-cases q r b) [
  | inl (e, small) ↦ rw e (omega (arith, small), omega (arith, small))
  | inr (e, large) ↦ rw e (grind arith, grind arith)
]

rounded-near :
    (a b : ℕ) → 0 < b → (2 * (rounded a b * b) ≤ 2 * a + b) × (2 * a ≤ 2 * (rounded a b * b) + b)
unfolding rounded
rounded-near a b h =
    subst (λ s. (2 * (rounded a b * b) ≤ 2 * s + b) × (2 * s ≤ 2 * (rounded a b * b) + b))
      (div-add-mod' a b) (half_even-near (a / b) (a % b) b (mod-lt a h))

average-near :
    (ns : List ℕ)
    → (2 * (average ns * (60_000_000 * length ns)) ≤ 2 * (100 * sum ns) + 60_000_000 * length ns)
      × (2 * (100 * sum ns) ≤ 2 * (average ns * (60_000_000 * length ns)) + 60_000_000 * length ns)
unfolding average sum
average-near [] = (omega arith, omega arith)
average-near (n ∷ ns) =
    rounded-near (100 * sum (n ∷ ns)) (60_000_000 * length (n ∷ ns)) (omega arith)

bump-has : (func other : String) (counts : Counts) → has func (bump other counts) ≡ has func counts
unfolding bump
bump-has func other [] = refl
bump-has func other ((f, n) ∷ counts) = ground (arith, bump-has func other counts)

bump_all-count_of :
    (func : String) (funcs : List String) (counts : Counts)
    → has func counts ≡ true
    → count_of func (bump_all funcs counts) ≡ count_of func counts + count (λ f. f == func) funcs
unfolding bump_all
bump_all-count_of func [] counts h = omega arith
bump_all-count_of func (other ∷ funcs) counts h = omega (
  arith,
  bump_all-count_of func funcs (bump other counts) (bump-has func other counts ∙ h),
  bump-count_of func other counts h,
)

bump_all-has :
    (func : String) (funcs : List String) (counts : Counts)
    → has func (bump_all funcs counts) ≡ has func counts
unfolding bump_all
bump_all-has func [] counts = refl
bump_all-has func (other ∷ funcs) counts =
    bump_all-has func funcs (bump other counts) ∙ bump-has func other counts

one_tag :
    (func : String) (found : Option String) (matched : List String) (n : ℕ)
    → count (λ f. f == func) matched ≡ n
    → count
        (λ f. f == func)
        (elim found as (λ _. List String) [ none ↦ matched | some f ↦ f ∷ matched ])
      ≡ (if (elim found as (λ _. Bool) [ none ↦ false | some f ↦ f == func ]) then 1 else 0) + n
one_tag func none matched n h = omega (arith, h)
one_tag func (some f) matched n h = ap (λ k. (if f == func then 1 else 0) + k) h

labels-names :
    (func : String) (tags : List String)
    → count (λ f. f == func) (tag_to_nist tags) ≡ count (names func) tags
unfolding tag_to_nist
labels-names func [] = refl
labels-names func (tag ∷ tags) =
    one_tag func (function_of tag) (tag_to_nist tags) (count (names func) tags)
      (labels-names func tags)

nist_counts-count_of :
    (func : String) (hits : List Source) (counts : Counts)
    → has func counts ≡ true
    → count_of func (nist_counts hits counts) ≡ count_of func counts + tally func hits
unfolding nist_counts
nist_counts-count_of func [] counts h = omega arith
nist_counts-count_of func (src ∷ hits) counts h =
    let labelled = tag_to_nist src.tags in
    omega (
      arith,
      nist_counts-count_of func hits (bump_all labelled counts)
          (bump_all-has func labelled counts ∙ h),
      bump_all-count_of func labelled counts h,
      labels-names func src.tags,
    )

no_counts-has :
    (func : String) (fs : List String) → has func (map (λ f. (f, 0)) fs) ≡ any (λ f. f == func) fs
no_counts-has func [] = refl
no_counts-has func (f ∷ fs) = ground (arith, no_counts-has func fs)

no_counts-zero : (func : String) (fs : List String) → count_of func (map (λ f. (f, 0)) fs) ≡ 0
no_counts-zero func [] = refl
no_counts-zero func (f ∷ fs) = ground (arith, no_counts-zero func fs)

-- The figures of a search that was answered: every alert is counted, every tag that names one of the
-- five functions is counted under it, and the average is the mean of the samples up to half a
-- hundredth of a minute.
pub metrics_exact :
    (clock : Clock) (hits : List Source) (func : String)
    → any (λ f. f == func) nist_functions ≡ true
    → ((fetch_and_calculate_metrics clock (some hits)).total_alerts ≡ length hits)
      × (count_of func (fetch_and_calculate_metrics clock (some hits)).nist_breakdown
          ≡ tally func hits)
      × (2
            * ((fetch_and_calculate_metrics clock (some hits)).average_mttd_minutes
                * (60_000_000 * length (samples clock hits)))
          ≤ 2 * (100 * sum (samples clock hits)) + 60_000_000 * length (samples clock hits))
      × (2 * (100 * sum (samples clock hits))
          ≤ 2
              * ((fetch_and_calculate_metrics clock (some hits)).average_mttd_minutes
                  * (60_000_000 * length (samples clock hits)))
            + 60_000_000 * length (samples clock hits))
unfolding fetch_and_calculate_metrics
metrics_exact clock hits func h =
    let near = average-near (samples clock hits) in
    (
      refl,
      omega (
        arith,
        nist_counts-count_of func hits no_counts (no_counts-has func nist_functions ∙ h),
        no_counts-zero func nist_functions,
      ),
      near.0,
      near.1,
    )
