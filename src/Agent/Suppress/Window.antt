-- ===== src/Agent/Suppress/Window.antt =====
-- Which firings of one host and technique are suppressed, over a whole history of them.
use suburban_soc.Base.{
  ℕ, suc, ◌+◌, String, ◌≡◌, refl, Bool, true, false, not, ◌&&◌, Option, none, some, List, [], ◌∷◌,
  arith, ltb, ◌==◌, nat_eq, string_eq, if◌then◌else◌,
}
use suburban_soc.Agent.Suppress.{
  Document, Firing, Answer, found, status, Judged, is_suppressed, answered,
  should_suppress_technique,
}

-- What has happened: the stored document, the last firing, the last one that was not suppressed,
-- and how many were since.
pub record History : Type 0 where
  pub stored : Option Document
  pub last : Option Firing
  pub alert : Option Firing
  pub suppressed : ℕ

abbrev pub answer_of : Option Document → Answer
answer_of none = status 404
answer_of (some d) = found d

abbrev pub is_yes : Option Bool → Bool
is_yes (some b) = b
is_yes none = false

abbrev pub after : Judged → Firing → History → History
after j f h = record {
  stored = j.written;
  last = some f;
  alert = if is_yes j.returned then h.alert else some f;
  suppressed = if is_yes j.returned then suc h.suppressed else 0;
}

abbrev pub firing : String → String → String → ℕ → Firing
firing host technique severity now = record {
  host = host;
  technique = technique;
  severity = severity;
  now = now;
}

-- The document that a last firing, a last alert and the number of firings suppressed since leave.
pub document_of : Option Firing → Option Firing → ℕ → Option Document
document_of (some l) (some a) n = some (record {
  last_seen = some l.now;
  first_seen = some a.now;
  suppressed_count = some n;
  max_severity = some a.severity;
})
document_of _ _ n = none

module _ (window_seconds max_duration_seconds : ℕ) where
  pub judged_after : Firing → History → History
  judged_after f h =
      after
        (should_suppress_technique window_seconds max_duration_seconds f (answer_of h.stored) true)
        f h

  -- The firings of a history, the newest first, each judged on the document that the one before it
  -- left in an index that answers every call.
  pub play : (host technique : String) → List (String × ℕ) → History
  play host technique [] = record { stored = none; last = none; alert = none; suppressed = 0 }
  play host technique ((severity, now) ∷ earlier) =
      let h = play host technique earlier in judged_after (firing host technique severity now) h

  -- What the last firing and the last alert say of a firing.
  pub in_window : Option Firing → Option Firing → Firing → Bool
  in_window none alert f = false
  in_window (some l) none f = false
  in_window (some l) (some a) f =
      ltb f.now (l.now + window_seconds)
      && (ltb f.now (a.now + max_duration_seconds)
          && not (f.severity == "critical" && not (a.severity == "critical")))

  named : Firing → Bool
  named f = not (f.host == "") && not (f.technique == "")

  judged_exactly :
      (f : Firing) (l a : Option Firing) (n : ℕ)
      → named f ≡ true
      → (should_suppress_technique window_seconds max_duration_seconds f
          (answer_of (document_of l a n))
          true).returned
        ≡ some (in_window l a f)
  unfolding should_suppress_technique answered is_suppressed document_of in_window named
  judged_exactly f none none n fh = ground (arith, fh)
  judged_exactly f (some l) (some a) n fh = ground (arith, fh)
  judged_exactly f none (some a) n fh = ground (arith, fh)
  judged_exactly f (some l) none n fh = ground (arith, fh)

  written_exactly :
      (f : Firing) (l a : Option Firing) (n : ℕ)
      → named f ≡ true
      → (should_suppress_technique window_seconds max_duration_seconds f
          (answer_of (document_of l a n))
          true).written
        ≡ (if in_window l a f
            then document_of (some f) a (suc n)
            else document_of (some f) (some f) 0)
  unfolding should_suppress_technique answered is_suppressed document_of in_window named
  written_exactly f none none n fh = ground (arith, fh)
  written_exactly f (some l) (some a) n fh = ground (arith, fh)
  written_exactly f none (some a) n fh = ground (arith, fh)
  written_exactly f (some l) none n fh = ground (arith, fh)

  judged_after-stored :
      (f : Firing) (h : History)
      → named f ≡ true
      → h.stored ≡ document_of h.last h.alert h.suppressed
      → (judged_after f h).stored
        ≡ document_of (judged_after f h).last (judged_after f h).alert (judged_after f h).suppressed
  unfolding judged_after
  judged_after-stored f h fh e = rw e (
      ground (
        arith,
        judged_exactly f h.last h.alert h.suppressed fh,
        written_exactly f h.last h.alert h.suppressed fh,
      ))

  play-stored :
      (host technique : String) (firings : List (String × ℕ))
      → (host == "") ≡ false
      → (technique == "") ≡ false
      → (play host technique firings).stored
        ≡ document_of
            (play host technique firings).last
            (play host technique firings).alert
            (play host technique firings).suppressed
  unfolding play document_of named
  play-stored host technique [] hh ht = refl
  play-stored host technique ((severity, now) ∷ earlier) hh ht =
      judged_after-stored (firing host technique severity now) (play host technique earlier)
        (ground (arith, hh, ht)) (play-stored host technique earlier hh ht)

  -- Over any history of firings of one host and one technique (both not empty, every call to
  -- Elasticsearch answered), the next firing is suppressed exactly when there was a firing less
  -- than `window_seconds` before it, the last alert was less than `max_duration_seconds` before it,
  -- and it is not critical unless that alert was.
  pub suppression_exact :
      (host technique : String) (firings : List (String × ℕ)) (severity : String) (now : ℕ)
      → (host == "") ≡ false
      → (technique == "") ≡ false
      → (should_suppress_technique window_seconds max_duration_seconds
          (firing host technique severity now)
          (answer_of (play host technique firings).stored)
          true).returned
        ≡ some (
            in_window
              (play host technique firings).last
              (play host technique firings).alert
              (firing host technique severity now))
  unfolding named
  suppression_exact host technique firings severity now hh ht =
      rw (play-stored host technique firings hh ht) (
        judged_exactly (firing host technique severity now) (play host technique firings).last
          (play host technique firings).alert (play host technique firings).suppressed
          (ground (arith, hh, ht)))
