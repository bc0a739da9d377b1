-- ===== src/Tests/Claims.antt =====
-- Two approvals of one alert, the second after the first gave its claim back.
use suburban_soc.Base.{◌≡◌, ℕ, suc, ◌+◌, ◌≤◌, String, refl, true, Option, none, some, arith}
use suburban_soc.Claims.Elastic.{
  released, Claim, Version, Stored, success, conflict, found, Update, updated, Same, Wrote,
  CreateLaw, PutLaw, UpdateLaw, GetLaw, Elastic,
}
use suburban_soc.Claims.Client.{
  idle, reading, reclaiming, holding, finished, new_claim, after_create, after_get, after_put,
}
use suburban_soc.Claims.System.{System, create, read, reclaim, transition, Reach, here, next, move}
use suburban_soc.Claims.System.Wins.{IsInitial, wins-le-releases}
use suburban_soc.Claims.System.Exclusive.{mutual_exclusion}

-- A document and the number of the last write.
abbrev pub Store : Type 0
Store = Option Stored × ℕ

abbrev doc : Store → Option Stored
doc s = s.0

abbrev clock : Store → ℕ
clock s = s.1

abbrev stamp : Version → ℕ
stamp v = v.seq_no

-- A service that does whatever its laws allow.
abbrev pub service : Elastic
service = record {
  State = Store;
  doc = doc;
  clock = clock;
  stamp = stamp;
  Create = λ c s r s'. CreateLaw doc clock stamp s s' r c;
  Put = λ v c s r s'. PutLaw doc clock stamp s s' r v c;
  Post = λ u s r s'. UpdateLaw doc clock stamp s s' r u;
  Get = λ s g s'. GetLaw doc clock stamp s s' g;
  create_law = λ c s s' r h. h;
  put_law = λ v c s s' r h. h;
  post_law = λ u s s' r h. h;
  get_law = λ s s' g h. h;
}

abbrev pub version : ℕ → Version
version n = record { seq_no = n; primary_term = 1 }

abbrev give_back : Update
give_back = record { phase = released; resolution = none; only_if = none }

abbrev pub held_by : String → ℕ → ℕ → Stored
held_by approver now n = record { claim = new_claim approver now; version = version n }

abbrev given_back : Stored
given_back = record { claim = updated give_back (new_claim "ann" 10); version = version 2 }

abbrev start : System service
start = record { es = (none, 0); pc = λ i. idle; wins = 0; releases = 0 }

start-IsInitial : IsInitial service start
start-IsInitial = record { no_doc = refl; all_idle = λ i. refl; no_wins = refl }

-- The first approval wins the claim, and the second meets it.
abbrev won : System service
won = record {
  es = (some (held_by "ann" 10 1), 1);
  pc = move start.pc 0 holding;
  wins = 1;
  releases = 0;
}

abbrev met : System service
met = record won { pc = move won.pc 1 reading }

-- The first gives it back, and the second reads that and reclaims.
abbrev free : System service
free = record { es = (some given_back, 2); pc = move met.pc 0 finished; wins = 1; releases = 1 }

abbrev seen : System service
seen = record free { pc = move free.pc 1 (reclaiming (version 2)) }

abbrev again : System service
again = record {
  es = (some (held_by "bob" 20 3), 3);
  pc = move seen.pc 1 holding;
  wins = 2;
  releases = 1;
}

abbrev same : (s : Store) → Same doc clock stamp s s
same s = record { same_doc = refl; same_clock = omega arith }

abbrev pub wrote :
    (c : Claim) (n : ℕ) (old : Option Stored)
    → Wrote doc clock stamp
        (old, n)
        (some (record { claim = c; version = version (suc n) }), suc n)
        c
wrote c n old = record {
  version = version (suc n);
  now_holds = refl;
  fresh = omega arith;
  known = omega arith;
}

history : Reach service true start again
unfolding after_create after_get after_put
history =
    next
      (next
        (next
          (next
            (next here (
              create 0 {approver = "ann"} {now = 10} {r = success} refl
                (refl, wrote (new_claim "ann" 10) 0 none)))
            (create 1 {approver = "bob"} {now = 15} {r = conflict} refl (same won.es)))
          (transition 0 {u = give_back} {r = success} refl
            (held_by "ann" 10 1, refl, tt, wrote given_back.claim 1 (some (held_by "ann" 10 1)))))
        (read 1 {g = found given_back} refl (same free.es, refl)))
      (reclaim 1 {v = version 2} {approver = "bob"} {now = 20} {r = success} refl
        (given_back.claim, refl, wrote (new_claim "bob" 20) 2 (some given_back)))

wins-le-releases_example : 2 ≤ 1 + 1
wins-le-releases_example =
    wins-le-releases service {careful = true} {s = start} {t = again} start-IsInitial history

mutual_exclusion_example : ◌≡◌ {A = ℕ} 1 1
mutual_exclusion_example =
    mutual_exclusion service {s = start} {t = again} 1 1 start-IsInitial history refl refl
