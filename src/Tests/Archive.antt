-- ===== src/Tests/Archive.antt =====
-- A queue with an action that was denied ten days ago, and one that is still pending.
use suburban_soc.Base.{◌≤◌, ◌≡◌, refl, true, false, some, [], ◌∷◌, nat_eq, string_eq, All}
use suburban_soc.Archive.{
  blank, malformed, entry, Files, entries, latest, agent_terminal, compact, compact_agent, writes,
  moved, append_all, is_archived, archivable, expired, latest_entries,
}
use suburban_soc.Archive.Kept.{unless_gone, compact-latest, awaiting}
use suburban_soc.Signing.{verify, signature, is_ascii}
use suburban_soc.Agent.Routes.Separate.{signed_with}
use suburban_soc.Agent.Pending.{present, list_pending}
use suburban_soc.Agent.Pending.Shown.{of_id, rows_of, pending_exact}
use suburban_soc.Tests.Fixtures.{crypto, number}
use suburban_soc.Archive.Crash.{stored, writes-stored}

abbrev queue : Files
queue = record {
  live =
      entry (record { id = some "a"; status = some "pending"; ts = 100; json = "1" })
      ∷ entry (record { id = some "b"; status = some "pending"; ts = 150; json = "2" })
      ∷ blank
      ∷ entry (record { id = some "a"; status = some "denied"; ts = 200; json = "3" })
      ∷ [];
  archive = [];
  torn = false;
}

compact-latest_example :
    latest "b" (entries (compact agent_terminal 7 900000 false queue).1.live)
    ≡ unless_gone agent_terminal 7 900000 (latest "b" (entries queue.live))
compact-latest_example = compact-latest agent_terminal 7 900000 queue "b"

writes-stored_example :
    All
      (λ g. stored (λ e. true) queue ≤ stored (λ e. true) g)
      (writes agent_terminal 7 900000 false queue)
writes-stored_example = writes-stored agent_terminal 7 900000 (λ e. true) false queue refl

pending_exact_example :
    (of_id "b"
        (list_pending crypto 60 "k"
          (present queue.live)
          (signed_with crypto "k" "100" "")
          110
          []).pending
      ≡ rows_of (awaiting agent_terminal "b" queue.live))
    × (of_id "b"
          (list_pending crypto 60 "k"
            (present (compact_agent 7 900000 false queue).1.live)
            (signed_with crypto "k" "100" "")
            110
            []).pending
        ≡ rows_of (awaiting agent_terminal "b" queue.live))
unfolding verify signature number is_ascii
pending_exact_example =
    pending_exact crypto 60 "k" (signed_with crypto "k" "100" "") 110 [] queue 7 900000 "b" refl

one_left :
    (list_pending crypto 60 "k"
      (present queue.live)
      (signed_with crypto "k" "100" "")
      110
      []).pending
    ≡ record { id = some "b"; status = some "pending"; ts = 150; json = "2" } ∷ []
unfolding verify signature number is_ascii list_pending
one_left = refl

-- Where an earlier run stopped in the middle of an entry, the first entry that the next one archives
-- is lost.
abbrev after_stop : Files
after_stop = record queue { archive = malformed ∷ []; torn = true }

one_lost :
    (stored (λ e. true) after_stop ≡ 3)
    × (stored (λ e. true) (compact agent_terminal 7 900000 false after_stop).1 ≡ 2)
unfolding compact moved append_all is_archived archivable expired latest_entries
one_lost = (refl, refl)
