-- ===== src/Weekly/Deliver/Published.antt =====
-- A report that counts as delivered was published, and a hosted model is never asked unless that is
-- allowed.
use suburban_soc.Base.Http.{Answer, lost, replied}
use suburban_soc.Weekly.Deliver.{
  Config, Ticket, World, Event, ask_upload, put_file, complete_upload, Slack, publish, after_put,
  with_keys, ask_ticket, send_to_slack,
}
use suburban_soc.Base.{
  ℕ, String, ◌≡◌, refl, sym, ap, inl, inr, Bool, true, false, ◌||◌, Option, none, some, List, [],
  ◌∷◌, ◌++◌, arith, ◌==◌, nat_eq, string_eq, Bool-cases,
}
use mathlib.Core.Path.{subst}

-- The upload was answered by a status that means that the file is there.
abbrev pub IsStored : Answer (Unit {0}) → Type 0
IsStored answer =
    (status : ℕ) × ((body : Option (Unit {0})) × (((answer ≡ replied status body)
        × ((status == 200 || status == 201) ≡ true))))

-- The answer to files.getUploadURLExternal says that all is well, with this address and this file.
abbrev pub Offers : World → String → String → Type 0
Offers world url file_id =
    (status : ℕ) × ((ticket : Ticket) × ((world.ticket ≡ replied status (some ticket))
        × (ticket.is_ok ≡ true)
        × (ticket.upload_url ≡ some url)
        × (ticket.file_id ≡ some file_id)))

-- The three requests were sent in turn, the second to the address and the third with the file of the
-- first one's answer, and the last two were answered well.
abbrev pub WasPublished : Config → World → String → Slack → Type 0
WasPublished config world path slack =
    (url : String) × ((file_id : String) × (Offers world url file_id
        × (slack.sent
            ≡ ask_upload path
              ∷ put_file url path
              ∷ complete_upload file_id config.slack_channel
              ∷ [])
        × IsStored world.upload
        × ((status : ℕ) × (world.complete ≡ replied status (some true)))))

publish-Published :
    (config : Config) (answer : Answer Bool) (file_id : String) (sent : List Event)
    → (publish config answer file_id sent).delivered ≡ some true
    → (status : ℕ) × (answer ≡ replied status (some true))
unfolding publish
publish-Published config lost file_id sent h = cc
publish-Published config (replied status body) file_id sent h =
    (status, ap (λ b. replied status b) h)

put_accepted :
    (config : Config) (complete : Answer Bool) (file_id : String) (sent : List Event) (status : ℕ)
    (body : Option (Unit {0}))
    → (status == 200 || status == 201) ≡ true
    → after_put config complete file_id sent (replied status body)
      ≡ publish config complete file_id sent
unfolding after_put
put_accepted config complete file_id sent status body fits = rw fits refl

after_put-Stored :
    (config : Config) (complete : Answer Bool) (file_id : String) (sent : List Event)
    (answer : Answer (Unit {0}))
    → (after_put config complete file_id sent answer).delivered ≡ some true
    → ((after_put config complete file_id sent answer).sent
        ≡ sent ++ complete_upload file_id config.slack_channel ∷ [])
      × IsStored answer
      × ((status : ℕ) × (complete ≡ replied status (some true)))
unfolding after_put publish
after_put-Stored config complete file_id sent lost h = cc
after_put-Stored config complete file_id sent (replied status body) h =
    elim (Bool-cases (status == 200 || status == 201)) [
      | inl fits ↦ (
        rw fits refl,
        (status, (body, (refl, fits))),
        publish-Published config complete file_id sent (
            subst (λ s. s.delivered ≡ some true)
              (put_accepted config complete file_id sent status body fits) h),
      )
      | inr other ↦ absurd (ground (arith, h, other))
    ]

with_keys-Published :
    (config : Config) (world : World) (path : String) (is_ok : Bool)
    (upload_url file_id : Option String)
    → ((url name : String)
        → is_ok ≡ true
        → upload_url ≡ some url
        → file_id ≡ some name
        → Offers world url name)
    → (with_keys config world path (ask_upload path ∷ []) is_ok upload_url file_id).delivered
      ≡ some true
    → WasPublished config world path
        (with_keys config world path (ask_upload path ∷ []) is_ok upload_url file_id)
unfolding with_keys
with_keys-Published config world path false upload_url file_id given h = absurd (ground (arith, h))
with_keys-Published config world path true none file_id given h = cc
with_keys-Published config world path true (some url) none given h = cc
with_keys-Published config world path true (some url) (some file_id) given h =
    let (in_turn, stored, published) =
      after_put-Stored config world.complete file_id (ask_upload path ∷ put_file url path ∷ [])
        world.upload h in
    (url, (file_id, (given url file_id refl refl refl, in_turn, stored, published)))

ask_ticket-Published :
    (config : Config) (world : World) (path : String) (answer : Answer Ticket)
    → world.ticket ≡ answer
    → (ask_ticket config world path answer).delivered ≡ some true
    → WasPublished config world path (ask_ticket config world path answer)
unfolding ask_ticket
ask_ticket-Published config world path lost asked h = cc
ask_ticket-Published config world path (replied status none) asked h = cc
ask_ticket-Published config world path (replied status (some ticket)) asked h =
    with_keys-Published config world path ticket.is_ok ticket.upload_url ticket.file_id
      (λ url name well at file. (status, (ticket, (asked, well, at, file)))) h

configured :
    (config : Config) (world : World) (path : String)
    → (config.slack_token == "" || config.slack_channel == "") ≡ false
    → send_to_slack config world path ≡ ask_ticket config world path world.ticket
unfolding send_to_slack
configured config world path h = rw h refl

-- What counts as delivered to Slack was published there: Slack's answer to the first request gave an
-- address and a file, the report was put to that address and stored there, and then that file was
-- published to the channel, which Slack confirmed.
pub delivered-WasPublished :
    (config : Config) (world : World) (path : String)
    → (send_to_slack config world path).delivered ≡ some true
    → WasPublished config world path (send_to_slack config world path)
unfolding send_to_slack
delivered-WasPublished config world path h =
    elim (Bool-cases (config.slack_token == "" || config.slack_channel == "")) [
      | inl unset ↦ absurd (ground (arith, h, unset))
      | inr set ↦
          let e = configured config world path set in
          subst (λ s. WasPublished config world path s) (sym e)
            (ask_ticket-Published config world path world.ticket refl
              (subst (λ s. s.delivered ≡ some true) e h))
    ]
