-- ===== src/Archive.antt =====
-- The two queue compactions, scripts/setup/ai_agent/compact_agent_approval_queue.py and
-- scripts/hive-mind-broker/compact_broker_approval_queue.py, which differ in the statuses that they
-- call terminal. A queue file is the list of its lines.
pub mod Kept
pub mod Crash
use suburban_soc.Base.{
  ℕ, zero, suc, ◌+◌, ◌-◌, ◌*◌, ◌^◌, ◌≤◌, ◌<◌, String, ◌≡◌, refl, sym, ap, ◌∙◌, ◌≢◌, ◌↔◌, ◌⊎◌, inl,
  inr, Bool, true, false, not, ◌&&◌, ◌||◌, Option, none, some, List, [], ◌∷◌, ◌++◌, map, arith, ltb,
  leb, Eq, ◌==◌, nat_eq, string_eq, beq_refl, ne_of_beq, eq_of_beq, All-mono, if◌then◌else◌,
  Bool-cases, Option-cases, length, select, any, count, All, length-append, select-append,
  any-append, count-append, count-le-length, All-append, All-of,
}

-- A parsed line: the keys that the scripts read, and the JSON object itself. A missing `ts` is 0.
pub record Entry : Type 0 where
  pub id : Option String
  pub status : Option String
  pub ts : ℕ
  pub json : String

pub data Line : Type 0 where
  blank malformed : Line
  entry : Entry → Line

-- The two files; `torn` says that the last line of the archive has no newline at its end.
pub record Files : Type 0 where
  pub live : List Line
  pub archive : List Line
  pub torn : Bool

abbrev pub entries : List Line → List Entry
entries [] = []
entries (blank ∷ rest) = entries rest
entries (malformed ∷ rest) = entries rest
entries (entry e ∷ rest) = e ∷ entries rest

abbrev pub lines_of : List Entry → List Line
lines_of [] = []
lines_of (e ∷ rest) = entry e ∷ lines_of rest

-- `e.get("id") == id`
abbrev pub has_id : String → Entry → Bool
has_id id e = elim e.id [ none ↦ false | some i ↦ i == id ]

-- `latest.get(id)`: the last entry of the id
unfoldable pub latest : String → List Entry → Option Entry
latest id [] = none
latest id (e ∷ rest) = elim (latest id rest) [
  | some l ↦ some l
  | none ↦ if has_id id e then some e else none
]

-- The values of `latest`, each where it stands in the file.
unfoldable pub latest_entries : List Entry → List Entry
latest_entries [] = []
latest_entries (e ∷ rest) =
    let later = latest_entries rest in
    elim e.id [ none ↦ later | some i ↦ if any (has_id i) rest then later else e ∷ later ]

abbrev pub agent_terminal : String → Bool
agent_terminal status = status == "approved" || status == "denied"

abbrev pub broker_terminal : String → Bool
broker_terminal status = status == "approved" || status == "denied" || status == "executed"

-- The last line with a text behind it: two JSON texts on one line, which do not parse.
abbrev pub spoiled : List Line → List Line
spoiled [] = malformed ∷ []
spoiled (l ∷ []) = malformed ∷ []
spoiled (l ∷ k ∷ rest) = l ∷ spoiled (k ∷ rest)

-- The lines with a text at the end of the file.
abbrev pub with_text : Bool → List Line → Line → List Line
with_text true lines l = spoiled lines
with_text false lines l = lines ++ l ∷ []

-- `afh.write(json.dumps(e) + "\n")`, when a part of the text is in the file, the text without the
-- newline, and all of it.
abbrev pub part_of : Files → Files
part_of f = record f { archive = with_text f.torn f.archive malformed; torn = true }

abbrev pub text_of : Entry → Files → Files
text_of e f = record f { archive = with_text f.torn f.archive (entry e); torn = true }

abbrev pub append : Entry → Files → Files
append e f = record f { archive = with_text f.torn f.archive (entry e); torn = false }

-- What the files are while entries are appended, and after all are.
unfoldable pub appends : List Entry → Files → List Files
appends [] f = []
appends (e ∷ es) f = part_of f ∷ text_of e f ∷ append e f ∷ appends es (append e f)

unfoldable pub append_all : List Entry → Files → Files
append_all [] f = f
append_all (e ∷ es) f = append_all es (append e f)

-- The entries appended to the archive, and the queue replaced by the others.
unfoldable pub moved : (kept chosen : List Entry) → Files → Files
unfolding append_all
moved kept chosen f = record (append_all chosen f) { live = lines_of kept }

module _ (terminal : String → Bool) (retention_days now : ℕ) where
  -- Terminal, and before the cutoff `now - retention_days * 86400`.
  unfoldable pub expired : Entry → Bool
  expired e =
      elim e.status [ none ↦ false | some status ↦ terminal status ]
      && ltb (e.ts + retention_days * 86400) now

  -- `archivable_ids`, each id once
  unfoldable pub archivable : List Entry → List Entry
  unfolding latest_entries expired
  archivable es = select expired (latest_entries es)

  -- `e.get("id") in archivable_ids`; an entry without an id never is
  unfoldable pub is_archived : List Entry → Entry → Bool
  is_archived chosen e = elim e.id [ none ↦ false | some i ↦ any (has_id i) chosen ]

  abbrev pub keep : List Entry → List Entry
  keep es = select (λ e. not (is_archived (archivable es) e)) es

  abbrev pub archived : List Entry → List Entry
  archived es = select (is_archived (archivable es)) es

  -- What the files can be at every point at which the process can stop: while the archived entries
  -- are appended one by one, and after the queue is replaced, once the archive is synced. Nothing is
  -- written where nothing expires or in a dry run; a queue file that does not exist is no file to
  -- compact.
  unfoldable pub writes : Bool → Files → List Files
  unfolding appends moved
  writes dry_run f =
      let es = entries f.live in
      if length (archivable es) == 0
      then []
      else if dry_run
      then []
      else appends (archived es) f ++ moved (keep es) (archived es) f ∷ []

  -- The number that is returned, and the files at the end.
  unfoldable pub compact : Bool → Files → ℕ × Files
  unfolding moved
  compact dry_run f =
      let es = entries f.live in
      (
        length (archivable es),
        if length (archivable es) == 0
            then f
            else if dry_run
            then f
            else moved (keep es) (archived es) f,
      )

abbrev pub compact_agent : (retention_days now : ℕ) → Bool → Files → ℕ × Files
compact_agent = compact agent_terminal

abbrev pub compact_broker : (retention_days now : ℕ) → Bool → Files → ℕ × Files
compact_broker = compact broker_terminal
