-- ===== src/Archive/Kept.antt =====
-- The latest entry of an id, before and after a compaction.
use suburban_soc.Base.{
  ℕ, ◌+◌, ◌*◌, String, ◌≡◌, refl, sym, ◌∙◌, inl, inr, Bool, true, false, not, ◌&&◌, Option, none,
  some, List, [], ◌∷◌, arith, ltb, ◌==◌, nat_eq, string_eq, eq_of_beq, if◌then◌else◌, Bool-cases,
  Option-cases, length, select, any,
}
use suburban_soc.Archive.{
  Entry, Line, Files, entries, lines_of, has_id, latest, latest_entries, agent_terminal, expired,
  archivable, is_archived, moved, keep, compact, compact_agent,
}

pub entries-lines_of : (es : List Entry) → entries (lines_of es) ≡ es
entries-lines_of [] = refl
entries-lines_of (e ∷ es) = rw (entries-lines_of es)

abbrev is_some : Option Entry → Bool
is_some none = false
is_some (some _) = true

any-has_id : (id : String) (es : List Entry) → any (has_id id) es ≡ is_some (latest id es)
unfolding latest
any-has_id id [] = refl
any-has_id id (e ∷ es) = ground (arith, any-has_id id es)

abbrev holds : (Entry → Bool) → Option Entry → Bool
holds p none = false
holds p (some l) = p l

-- Among `latest_entries` stands the latest entry of an id, and no other of that id.
any-latest_entries :
    (p : Entry → Bool) (id : String) (es : List Entry)
    → any (λ e. has_id id e && p e) (latest_entries es) ≡ holds p (latest id es)
unfolding latest latest_entries
any-latest_entries p id [] = refl
any-latest_entries p id (e ∷ es) = elim (Option-cases e.id) [
  | inl e_none ↦ ground (arith, e_none, any-latest_entries p id es)
  | inr (i, e_some) ↦ elim (Bool-cases (i == id)) [
    | inl same ↦
        ground
          (arith, e_some, same, eq_of_beq i id same, any-latest_entries p id es, any-has_id id es)
    | inr differs ↦ ground (arith, e_some, differs, any-latest_entries p id es)
  ]
]

module _ (terminal : String → Bool) (retention_days now : ℕ) where
  -- Resolved, and for longer than the retention: its second and `retention_days` days more lie before
  -- `now`.
  abbrev pub gone : Entry → Bool
  gone e =
      elim e.status [ none ↦ false | some status ↦ terminal status ]
      && ltb (e.ts + retention_days * 86400) now

  any-select :
      (p q : Entry → Bool) (es : List Entry) → any p (select q es) ≡ any (λ e. p e && q e) es
  any-select p q [] = refl
  any-select p q (e ∷ es) = ground (arith, any-select p q es)

  -- An id is archived exactly if its latest entry has expired.
  any-archivable :
      (id : String) (es : List Entry)
      → any (has_id id) (archivable terminal retention_days now es) ≡ holds gone (latest id es)
  unfolding archivable expired
  any-archivable id es =
      any-select (has_id id) gone (latest_entries es) ∙ any-latest_entries gone id es

  -- A test that looks at the id alone keeps or drops all entries of an id together.
  latest-select :
      (chosen es : List Entry) (id : String)
      → latest id (select (λ e. not (is_archived terminal retention_days now chosen e)) es)
        ≡ (if any (has_id id) chosen then none else latest id es)
  unfolding latest is_archived
  latest-select chosen [] id = ground arith
  latest-select chosen (e ∷ es) id = elim (Option-cases e.id) [
    | inl e_none ↦ ground (arith, e_none, latest-select chosen es id)
    | inr (i, e_some) ↦ elim (Bool-cases (i == id)) [
      | inl same ↦ ground (arith, e_some, same, eq_of_beq i id same, latest-select chosen es id)
      | inr differs ↦ ground (arith, e_some, differs, latest-select chosen es id)
    ]
  ]

  abbrev pub unless_gone : Option Entry → Option Entry
  unless_gone none = none
  unless_gone (some l) = if gone l then none else some l

  latest-keep :
      (id : String) (es : List Entry)
      → latest id (keep terminal retention_days now es) ≡ unless_gone (latest id es)
  latest-keep id es =
      ground (
        arith,
        latest-select (archivable terminal retention_days now es) es id,
        any-archivable id es,
      )

  none-archivable :
      (id : String) (es chosen : List Entry)
      → archivable terminal retention_days now es ≡ chosen
      → (length chosen == 0) ≡ true
      → unless_gone (latest id es) ≡ latest id es
  none-archivable id es [] h k = ground (arith, h, any-archivable id es)
  none-archivable id es (e ∷ rest) h k = absurd (ground arith)

  -- Compaction leaves each id with its latest entry, unless that entry has a terminal status and the
  -- retention, counted from its `ts`, lies before `now`: then it takes every entry of the id out of
  -- the queue. Ids of no entry are not affected.
  pub compact-latest :
      (f : Files) (id : String)
      → latest id (entries (compact terminal retention_days now false f).1.live)
        ≡ unless_gone (latest id (entries f.live))
  unfolding compact moved
  compact-latest f id =
      elim (Bool-cases (length (archivable terminal retention_days now (entries f.live)) == 0)) [
        | inl nothing ↦ rw nothing (sym (none-archivable id (entries f.live) _ refl nothing))
        | inr something ↦ rw (something, entries-lines_of) (latest-keep id (entries f.live))
      ]

-- The entry of an id that an operator still has to resolve.
abbrev pub awaiting : (String → Bool) → String → List Line → Option Entry
awaiting resolved id lines = elim (latest id (entries lines)) [
  | none ↦ none
  | some l ↦ if elim l.status [ none ↦ false | some s ↦ resolved s ] then none else some l
]

-- Whatever the retention and the second, the compaction of the agent's queue never changes what is
-- awaiting approval: the latest entry of every id whose status is neither approved nor denied.
pub compact_agent-awaiting :
    (retention_days now : ℕ) (f : Files) (id : String)
    → awaiting agent_terminal id (compact_agent retention_days now false f).1.live
      ≡ awaiting agent_terminal id f.live
unfolding expired
compact_agent-awaiting retention_days now f id =
    ground (arith, compact-latest agent_terminal retention_days now f id)
