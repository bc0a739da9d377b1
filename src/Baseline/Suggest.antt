-- ===== src/Baseline/Suggest.antt =====
-- `analyze_events` and the two commands of scripts/setup/suricata_threshold_baseline.py. The margin is
-- a fraction; the rule files and the event files are read before.
pub mod Clears
use suburban_soc.Base.{
  ℕ, ◌+◌, ◌-◌, ◌*◌, String, Bool, Option, none, some, List, [], ◌∷◌, ◌++◌, map, ltb, leb, ◌==◌,
  nat_eq, string_eq, if◌then◌else◌, length, count,
}
use Prim.Native.Nat.{◌/◌}
use suburban_soc.Baseline.Window.{max, sorted, window_max}

pub data Track : Type 0 where
  by_src by_dst : Track

pub record Candidate : Type 0 where
  pub sid : ℕ
  pub track : Track
  pub threshold : ℕ
  pub seconds : ℕ

pub record Event : Type 0 where
  pub sid : ℕ
  pub src : String
  pub dst : String
  pub ts : ℕ

pub record Margin : Type 0 where
  pub num : ℕ
  pub den : ℕ

-- The window in microseconds.
abbrev pub width_of : Candidate → ℕ
width_of c = 1_000_000 * c.seconds

abbrev pub key_of : Track → Event → String
key_of by_src e = e.src
key_of by_dst e = e.dst

-- `{c.sid: c for c in cands}.get(sid)`: the last candidate of that number.
unfoldable pub by_sid : List Candidate → ℕ → Option Candidate
by_sid [] sid = none
by_sid (c ∷ cs) sid = elim (by_sid cs sid) [
  | some d ↦ some d
  | none ↦ if c.sid == sid then some c else none
]

-- The times of one rule's events, by key in the order in which the keys appear.
abbrev pub Series : Type 0
Series = List (String × List ℕ)

-- `setdefault(key, []).append(ts)`
unfoldable pub append_time : String → ℕ → Series → Series
append_time key ts [] = (key, ts ∷ []) ∷ []
append_time key ts ((k, times) ∷ s) =
    let rest = append_time key ts s in
    if k == key then (k, times ++ ts ∷ []) ∷ s else (k, times) ∷ rest

abbrev pub add_to : Option Candidate → Event → (ℕ → Series) → ℕ → Series
add_to none e all = all
add_to (some c) e all =
    λ sid. if e.sid == sid then append_time (key_of c.track e) e.ts (all sid) else all sid

unfoldable pub series_from : List Candidate → List Event → (ℕ → Series) → ℕ → Series
unfolding by_sid append_time
series_from cands [] all = all
series_from cands (e ∷ es) all = series_from cands es (add_to (by_sid cands e.sid) e all)

unfoldable pub series : List Candidate → List Event → ℕ → Series
unfolding series_from
series cands events = series_from cands events (λ sid. [])

unfoldable pub maxes : (width : ℕ) → Series → List (String × ℕ)
maxes width [] = []
maxes width ((k, times) ∷ s) = (k, window_max (sorted times) width) ∷ maxes width s

-- `max(maxes.values(), default=0)`
unfoldable pub observed : List (String × ℕ) → ℕ
observed [] = 0
observed ((k, m) ∷ ms) = max m (observed ms)

-- `ceil(observed * margin) + 1`
abbrev pub above_margin : Margin → ℕ → ℕ
above_margin m n = (n * m.num + (m.den - 1)) / m.den + 1

unfoldable pub suggested : Candidate → Margin → (observed : ℕ) → ℕ
suggested c m n = if n == 0 then c.threshold else max c.threshold (above_margin m n)

pub data Note : Type 0 where
  untested raise_it clears : Note

abbrev pub note_of : Candidate → (observed suggested : ℕ) → Note
note_of c n s = if n == 0 then untested else if ltb c.threshold s then raise_it else clears

-- The key whose maximum is `n`, the first of them.
abbrev pub top_of : ℕ → List (String × ℕ) → String
top_of n [] = "-"
top_of n ((k, m) ∷ ms) = let rest = top_of n ms in if m == n then k else rest

abbrev pub total_of : Series → ℕ
total_of [] = 0
total_of ((k, times) ∷ s) = length times + total_of s

pub record Analysis : Type 0 where
  pub cand : Candidate
  pub events : ℕ
  pub keys : ℕ
  pub observed_max : ℕ
  pub top_key : String
  pub reaching : ℕ
  pub suggestion : ℕ
  pub note : Note

unfoldable pub analysis : List Candidate → List Event → Margin → Candidate → Analysis
unfolding series maxes observed suggested
analysis cands events margin c =
    let per_key = series cands events c.sid in
    let ms = maxes (width_of c) per_key in
    let n = observed ms in
    let s = suggested c margin n in
    record {
      cand = c;
      events = total_of per_key;
      keys = length per_key;
      observed_max = n;
      top_key = top_of n ms;
      reaching = count (λ km. leb c.threshold km.1) ms;
      suggestion = s;
      note = note_of c n s;
    }

-- The first and the last time of an event of a candidate.
abbrev pub or_else : (ℕ → ℕ → ℕ) → Option ℕ → ℕ → ℕ
or_else f none t = t
or_else f (some s) t = f s t

abbrev pub min : ℕ → ℕ → ℕ
min a b = if ltb b a then b else a

abbrev pub spanned : Option Candidate → ℕ → Option ℕ × Option ℕ → Option ℕ × Option ℕ
spanned none t s = s
spanned (some c) t (first, last) = (some (or_else min first t), some (or_else max last t))

unfoldable pub span_from : List Candidate → List Event → Option ℕ × Option ℕ → Option ℕ × Option ℕ
unfolding by_sid
span_from cands [] s = s
span_from cands (e ∷ es) s = span_from cands es (spanned (by_sid cands e.sid) e.ts s)

unfoldable pub analyze_events :
    List Event → List Candidate → Margin → List Analysis × (Option ℕ × Option ℕ)
unfolding analysis span_from
analyze_events events cands margin =
    (map (analysis cands events margin) cands, span_from cands events (none, none))

-- `analyze`: a margin below one is refused, and so are event files that are missing.
pub data Analyzed : Type 0 where
  refused not_found : Analyzed
  results : List Analysis → (provisional : Bool) → Analyzed

-- Whether the events span less than a number of days.
abbrev pub provisional : (min_days : ℕ) → Option ℕ × Option ℕ → Bool
provisional min_days (some first, some last) = ltb (last - first) (86_400_000_000 * min_days)
provisional min_days s = ltb 0 min_days

abbrev pub analyzed :
    List Candidate → Margin → (missing : List String) → List Event → (min_days : ℕ) → Analyzed
analyzed cands margin (p ∷ missing) events min_days = not_found
analyzed cands margin [] events min_days =
    let (rs, s) = analyze_events events cands margin in results rs (provisional min_days s)

unfoldable pub cmd_analyze :
    List Candidate → Margin → (missing : List String) → List Event → (min_days : ℕ) → Analyzed
unfolding analyze_events
cmd_analyze cands margin missing events min_days =
    if ltb margin.num margin.den then refused else analyzed cands margin missing events min_days
