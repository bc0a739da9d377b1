-- ===== src/Weekly/Metrics.antt =====
-- `_tag_to_nist` and `fetch_and_calculate_metrics`. An alert's fields are none where they are no
-- text; what `datetime.fromisoformat` reads and how two times differ are parameters. `then` builds
-- texts, since `∷` builds lists.
pub mod Counts
use Prim.Native.Char.{Char, code}
use Prim.Native.String.{[] as empty, ◌∷◌ as ◌then◌}
use suburban_soc.Base.Text.{strip, lower, in_range, nth}
use suburban_soc.Slo.{rounded}
use suburban_soc.Base.{
  ℕ, zero, suc, ◌+◌, ◌-◌, ◌*◌, String, Bool, true, false, ◌&&◌, ◌||◌, Option, none, some, List, [],
  ◌∷◌, map, ◌==◌, nat_eq, string_eq, if◌then◌else◌, length, any,
}

-- The characters that `upper` makes one ASCII letter: its two cases, and for I and S the dotless i
-- and the long s.
unfoldable pub uppers : ℕ → ℕ → ℕ → Char → Bool
uppers upper_case lower_case another c =
    code c == upper_case || code c == lower_case || code c == another

unfoldable pub after_colon : String → Option String
after_colon empty = none
after_colon (c then s) = if code c == b':' then some s else none

-- Behind "ST" in upper case, which two ligatures are too, and the colon.
unfoldable pub after_st : String → Option String
unfolding uppers after_colon
after_st empty = none
after_st (c then empty) = none
after_st (c then (d then s)) =
    if code c == 0xfb05 || code c == 0xfb06
    then after_colon (d then s)
    else if uppers b'S' b's' 0x17f c && uppers b'T' b't' b't' d
    then after_colon s
    else none

-- `tag_str.split(":", 1)[1]` where `tag_str.upper()` starts with "NIST:"
unfoldable pub after_nist : String → Option String
unfolding after_st uppers
after_nist empty = none
after_nist (c then empty) = none
after_nist (c then (d then s)) =
    if uppers b'N' b'n' b'n' c && uppers b'I' b'i' 0x131 d then after_st s else none

-- `capitalize`, as far as its result is ASCII
unfoldable pub title_char : Char → Char
unfolding nth
title_char c =
    if in_range b'a' b'z' (code c)
    then nth "ABCDEFGHIJKLMNOPQRSTUVWXYZ" (code c - b'a') c
    else if code c == 0x131
    then "I"
    else c

unfoldable pub capitalize : String → String
unfolding title_char lower
capitalize empty = empty
capitalize (c then s) = title_char c then lower s

abbrev pub nist_functions : List String
nist_functions = "Identify" ∷ "Protect" ∷ "Detect" ∷ "Respond" ∷ "Recover" ∷ []

-- One turn of the loop of `_tag_to_nist`
unfoldable pub function_of : String → Option String
unfolding after_nist capitalize
function_of tag = elim (after_nist (strip tag)) [
  | none ↦ none
  | some s ↦ if any (λ f. capitalize s == f) nist_functions then some (capitalize s) else none
]

unfoldable pub tag_to_nist : List String → List String
unfolding function_of
tag_to_nist [] = []
tag_to_nist (tag ∷ tags) =
    let matched = tag_to_nist tags in
    elim (function_of tag) [ none ↦ matched | some func ↦ func ∷ matched ]

-- A difference of two times, in microseconds.
pub data Span : Type 0 where
  ahead behind : ℕ → Span

-- The clock's types: none is a ValueError, and a TypeError of two times that cannot be subtracted.
pub record Clock : Type 1 where
  pub Time : Type 0
  pub fromisoformat : String → Option Time
  pub minus : Time → Time → Option Span

pub record Source : Type 0 where
  pub timestamp : Option String
  pub alert_start : Option String
  pub tags : List String

-- `replace("Z", "+00:00")`
unfoldable pub replace_z : String → String
replace_z empty = empty
replace_z (c then s) =
    let rest = replace_z s in
    if code c == b'Z'
    then ("+" then ("0" then ("0" then (":" then ("0" then ("0" then rest))))))
    else c then rest

-- The sample of one alert, if it has one: both times there, read, and not the wrong way round.
unfoldable pub sample : (clock : Clock) → Source → Option ℕ
unfolding replace_z
sample clock src = elim src.timestamp [
  | none ↦ none
  | some event_ts ↦ elim src.alert_start [
    | none ↦ none
    | some alert_ts ↦
        if event_ts == "" || alert_ts == ""
        then none
        else elim (clock.fromisoformat (replace_z event_ts)) [
          | none ↦ none
          | some event_time ↦ elim (clock.fromisoformat (replace_z alert_ts)) [
            | none ↦ none
            | some alert_time ↦ elim (clock.minus alert_time event_time) [
              | none ↦ none
              | some span ↦ elim span [
                | ahead n ↦ some n
                | behind zero ↦ some zero
                | behind (suc n) ↦ none
              ]
            ]
          ]
        ]
  ]
]

unfoldable pub samples : (clock : Clock) → List Source → List ℕ
unfolding sample
samples clock [] = []
samples clock (src ∷ hits) =
    let rest = samples clock hits in elim (sample clock src) [ none ↦ rest | some n ↦ n ∷ rest ]

abbrev pub Counts : Type 0
Counts = List (String × ℕ)

-- `{f: 0 for f in NIST_FUNCTIONS}`
abbrev pub no_counts : Counts
no_counts = map (λ f. (f, 0)) nist_functions

-- `nist_counts[func] += 1`
unfoldable pub bump : String → Counts → Counts
bump func [] = []
bump func ((f, n) ∷ counts) =
    let rest = bump func counts in if f == func then (f, n + 1) ∷ counts else (f, n) ∷ rest

unfoldable pub bump_all : List String → Counts → Counts
unfolding bump
bump_all [] counts = counts
bump_all (func ∷ funcs) counts = bump_all funcs (bump func counts)

unfoldable pub nist_counts : List Source → Counts → Counts
unfolding bump_all tag_to_nist
nist_counts [] counts = counts
nist_counts (src ∷ hits) counts = nist_counts hits (bump_all (tag_to_nist src.tags) counts)

unfoldable pub sum : List ℕ → ℕ
sum [] = 0
sum (n ∷ ns) = n + sum ns

-- `round(sum(samples) / len(samples), 2) if samples else 0`, of the samples in minutes, in hundredths
unfoldable pub average : List ℕ → ℕ
unfolding sum rounded
average [] = 0
average (n ∷ ns) = rounded (100 * sum (n ∷ ns)) (60_000_000 * length (n ∷ ns))

pub record Figures : Type 0 where
  pub total_alerts : ℕ
  pub average_mttd_minutes : ℕ
  pub nist_breakdown : Counts
  pub demo_mode : Bool

abbrev pub demo_figures : Figures
demo_figures = record {
  total_alerts = 342;
  average_mttd_minutes = 1850;
  nist_breakdown =
      ("Identify", 12) ∷ ("Protect", 85) ∷ ("Detect", 190) ∷ ("Respond", 45) ∷ ("Recover", 10) ∷ [];
  demo_mode = true;
}

-- `search` is the hits of the search; none is an exception of it.
unfoldable pub fetch_and_calculate_metrics : (clock : Clock) → Option (List Source) → Figures
unfolding samples nist_counts average
fetch_and_calculate_metrics clock none = demo_figures
fetch_and_calculate_metrics clock (some hits) = record {
  total_alerts = length hits;
  average_mttd_minutes = average (samples clock hits);
  nist_breakdown = nist_counts hits no_counts;
  demo_mode = false;
}
