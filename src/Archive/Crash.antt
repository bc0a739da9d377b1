-- ===== src/Archive/Crash.antt =====
-- The entries of both files, counted wherever a compaction can stop.
use suburban_soc.Base.{
  ℕ, ◌+◌, ◌≤◌, String, ◌≡◌, refl, ap, inl, inr, Bool, true, false, not, List, [], ◌∷◌, ◌++◌, arith,
  ◌==◌, nat_eq, string_eq, All-mono, if◌then◌else◌, Bool-cases, length, select, count, All,
  count-append, All-append,
}
use suburban_soc.Archive.{
  Entry, Line, blank, malformed, entry, Files, entries, archivable, is_archived, keep, archived,
  append, appends, append_all, moved, writes, compact,
}
use suburban_soc.Archive.Kept.{entries-lines_of}

entries-append : (xs ys : List Line) → entries (xs ++ ys) ≡ entries xs ++ entries ys
entries-append [] ys = refl
entries-append (blank ∷ xs) ys = entries-append xs ys
entries-append (malformed ∷ xs) ys = entries-append xs ys
entries-append (entry e ∷ xs) ys = ap (λ r. e ∷ r) (entries-append xs ys)

-- The entries of both files that pass a test, counted with repetitions.
abbrev pub stored : (Entry → Bool) → Files → ℕ
stored p f = count p (entries f.live) + count p (entries f.archive)

count-split :
    (p q : Entry → Bool) (es : List Entry)
    → count p (select (λ e. not (q e)) es) + count p (select q es) ≡ count p es
count-split p q [] = omega arith
count-split p q (e ∷ es) = ground (arith, count-split p q es)

-- The entries of the files, with some more in the archive.
stored-append :
    (p : Entry → Bool) (e : Entry) (f : Files)
    → f.torn ≡ false
    → stored p (append e f) ≡ stored p f + count p (e ∷ [])
stored-append p e f whole = rw (whole, entries-append, count-append) (omega arith)

stored-append_all :
    (p : Entry → Bool) (es : List Entry) (f : Files)
    → f.torn ≡ false
    → stored p (append_all es f) ≡ stored p f + count p es
unfolding append_all
stored-append_all p [] f whole = omega arith
stored-append_all p (e ∷ es) f whole =
    ground (arith, stored-append p e f whole, stored-append_all p es (append e f) refl)

live-append_all : (es : List Entry) (f : Files) → (append_all es f).live ≡ f.live
unfolding append_all
live-append_all [] f = refl
live-append_all (e ∷ es) f = live-append_all es (append e f)

-- No stop while entries are appended to a whole archive loses one.
appends-stored :
    (p : Entry → Bool) (es : List Entry) (f : Files)
    → f.torn ≡ false
    → All (λ g. stored p f ≤ stored p g) (appends es f)
unfolding appends
appends-stored p [] f whole = tt
appends-stored p (e ∷ es) f whole =
    let more : stored p f ≤ stored p (append e f) = omega (arith, stored-append p e f whole) in
    (
      rw (whole, entries-append, count-append) (omega arith),
      (
        rw (whole, entries-append, count-append) (omega arith),
        (
          more,
          All-mono (λ g h. omega (arith, h, more)) (appends es (append e f))
              (appends-stored p es (append e f) refl),
        ),
      ),
    )

module _ (terminal : String → Bool) (retention_days now : ℕ) where
  abbrev chosen : List Entry → List Entry
  chosen = archived terminal retention_days now

  abbrev kept : List Entry → List Entry
  kept = keep terminal retention_days now

  moved-stored :
      (p : Entry → Bool) (f : Files)
      → f.torn ≡ false
      → stored p (moved (kept (entries f.live)) (chosen (entries f.live)) f) ≡ stored p f
  unfolding moved
  moved-stored p f whole =
      let es = entries f.live in
      ground (
        arith,
        stored-append_all p (chosen es) f whole,
        live-append_all (chosen es) f,
        entries-lines_of (kept es),
        count-split p
            (is_archived terminal retention_days now (archivable terminal retention_days now es))
            es,
      )

  -- A finished compaction moves entries between the two files: if the archive ended with a newline,
  -- none is lost and none is duplicated.
  pub compact-stored :
      (p : Entry → Bool) (dry_run : Bool) (f : Files)
      → f.torn ≡ false
      → stored p (compact terminal retention_days now dry_run f).1 ≡ stored p f
  unfolding compact
  compact-stored p dry_run f whole = ground (arith, moved-stored p f whole)

  -- If the archive ends with a newline, then at every point at which the process can stop, in the
  -- middle of the append of an entry included, the files still hold every entry at least as often
  -- as before.
  pub writes-stored :
      (p : Entry → Bool) (dry_run : Bool) (f : Files)
      → f.torn ≡ false
      → All (λ g. stored p f ≤ stored p g) (writes terminal retention_days now dry_run f)
  unfolding writes
  writes-stored p dry_run f whole =
      elim (Bool-cases (length (archivable terminal retention_days now (entries f.live)) == 0)) [
        | inl nothing ↦ rw nothing tt
        | inr something ↦ rw something (appended dry_run)
      ]
    where
      es : List Entry
      es = entries f.live

      appended :
          (dry : Bool)
          → All
              (λ g. stored p f ≤ stored p g)
              (if dry then [] else appends (chosen es) f ++ moved (kept es) (chosen es) f ∷ [])
      appended true = tt
      appended false =
          All-append (λ g. stored p f ≤ stored p g) (appends (chosen es) f) _
            (appends-stored p (chosen es) f whole) (omega (arith, moved-stored p f whole), tt)
