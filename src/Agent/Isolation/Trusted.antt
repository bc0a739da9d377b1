-- ===== src/Agent/Isolation/Trusted.antt =====
-- Which responses of the broker give a dispatch a known outcome.
use suburban_soc.Base.{
  ℕ, zero, suc, String, ◌≡◌, refl, sym, ap, ◌∙◌, ◌≢◌, ◌↔◌, ◌⊎◌, inl, inr, Bool, true, false, ◌||◌,
  Option, none, some, arith, ◌==◌, nat_eq, string_eq, beq_refl, ne_of_beq, eq_of_beq, if◌then◌else◌,
  Bool-cases,
}
use suburban_soc.Signing.{ℤ, pos, negsuc, Crypto, Cache, Verdict, accepted, verify}
use suburban_soc.Broker.Gate.{Json, null, str, other}
use mathlib.Core.Path.{subst}
use suburban_soc.Agent.Isolation.{
  Data, Response, echoes_header, echoes, counted, data_or_none, is_accepted,
  dispatch_block_via_broker,
}
use suburban_soc.Agent.Isolation.Outcomes.{
  verdict_of, is_genuine, believed, expected, known_exactly,
}

some_injective {ℓ} : {A : Type ℓ} {x y : A} → some x ≡ some y → x ≡ y
some_injective h = cc

-- A value that Python takes for false.
abbrev pub IsFalsy : Json → Type 0
IsFalsy null = Unit
IsFalsy (str s) = s ≡ ""
IsFalsy (other name truth) = truth ≡ false

-- The response names the request: in its body, or in its header where the body names none.
abbrev pub Answers : String → Json → Option String → Type 0
Answers request_id named header =
    ((named ≡ str request_id) × (request_id ≢ "")) ⊎ (IsFalsy named × (header ≡ some request_id))

-- What the counts of an executed or refused dispatch say: at least one router confirmed is a success;
-- none is a failure, but if some are unconfirmed nothing is said.
abbrev pub Says : Bool → (executed : Bool) → (successes unknowns : ℤ) → Type 0
Says b false s u = b ≡ false
Says b true (pos zero) (pos zero) = b ≡ false
Says b true (pos zero) (pos (suc n)) = ⊥
Says b true (pos zero) (negsuc n) = b ≡ false
Says b true (pos (suc n)) u = b ≡ true
Says b true (negsuc n) u = b ≡ false

-- What a body with a status says.
abbrev pub Reports : Bool → Response → Data → Type 0
Reports b r body =
    ((r.status_code ≢ 200) × (b ≡ false))
    ⊎ ((r.status_code ≡ 200)
        × (body.is_empty ≡ false)
        × ((s : ℤ) × ((u : ℤ) × ((body.success_count ≡ some s)
                × (body.unknown_count ≡ some u)
                × Says b body.executed s u))))

header-known :
    (request_id : String) (header : Option String)
    → (echoes_header request_id header ≡ true) ↔ (header ≡ some request_id)
unfolding echoes_header
header-known request_id none = (λ h. cc, λ h. cc)
header-known request_id (some h) =
    (λ e. ap some (eq_of_beq h request_id e), λ e. rw (some_injective e) (beq_refl request_id))

falsy-Answers :
    (request_id : String) (named : Json) (header : Option String)
    → IsFalsy named
    → (named ≡ str request_id → request_id ≢ "" → ⊥)
    → (echoes_header request_id header ≡ true) ↔ Answers request_id named header
falsy-Answers request_id named header falsy unnamed = (
  λ h. inr (falsy, (header-known request_id header).0 h),
  λ h. elim h [
    | inl (same, set) ↦ absurd (unnamed same set)
    | inr (_, known_) ↦ (header-known request_id header).1 known_
  ],
)

str_injective : {s t : String} → str s ≡ str t → s ≡ t
str_injective h = cc

echoes-Answers :
    (request_id : String) (named : Json) (header : Option String)
    → (echoes request_id named header ≡ true) ↔ Answers request_id named header
unfolding echoes
echoes-Answers request_id null header =
    falsy-Answers request_id null header tt (λ h set. absurd (cc))
echoes-Answers request_id (other name true) header =
    (λ h. absurd (cc), λ h. elim h [ inl (same, _) ↦ absurd (cc) | inr (falsy, _) ↦ absurd (cc) ])
echoes-Answers request_id (other name false) header =
    falsy-Answers request_id (other name false) header refl (λ h set. absurd (cc))
echoes-Answers request_id (str s) header = elim (Bool-cases (s == "")) [
  | inl empty ↦ rw empty (
      falsy-Answers request_id (str s) header (eq_of_beq s "" empty)
        (λ h set. set (sym (str_injective h) ∙ eq_of_beq s "" empty)))
  | inr full ↦ rw full (
    λ e.
        let same = eq_of_beq s request_id e in
        inl (ap str same, λ h. ne_of_beq s "" full (same ∙ h)),
    λ h. elim h [
      | inl (same, _) ↦ rw (str_injective same) (beq_refl request_id)
      | inr (falsy, _) ↦ absurd (ne_of_beq s "" full falsy)
    ],
  )
]

some_flip : {b c : Bool} → (some c ≡ some b) ↔ (b ≡ c)
some_flip = (λ h. sym (some_injective h), λ h. ap some (sym h))

counted-Says :
    (b executed : Bool) (s u : ℤ)
    → (verdict_of (counted executed (some s) (some u)) ≡ some b) ↔ Says b executed s u
unfolding counted
counted-Says b false s u = some_flip
counted-Says b true (pos zero) (pos zero) = some_flip
counted-Says b true (pos zero) (pos (suc n)) = (λ h. absurd (ground (arith, h)), λ h. elim h [ ])
counted-Says b true (pos zero) (negsuc n) = some_flip
counted-Says b true (pos (suc n)) u = (λ h. ground (arith, h), λ h. ground (arith, h))
counted-Says b true (negsuc n) u = some_flip

counts-Says :
    (b executed : Bool) (o p : Option ℤ)
    → (verdict_of (counted executed o p) ≡ some b)
      ↔ ((s : ℤ) × ((u : ℤ) × ((o ≡ some s) × (p ≡ some u) × Says b executed s u)))
unfolding counted
counts-Says b executed none p = (λ h. absurd (cc), λ (s, (u, (e, _, _))). absurd (cc))
counts-Says b executed (some s) none = (λ h. absurd (cc), λ (t, (u, (_, e, _))). absurd (cc))
counts-Says b executed (some s) (some u) = (
  λ h. (s, (u, (refl, refl, (counted-Says b executed s u).0 h))),
  λ (t, (v, (e, f, says))). (counted-Says b executed s u).1 (
      subst (λ z. Says b executed z u) (sym (some_injective e))
        (subst (λ z. Says b executed t z) (sym (some_injective f)) says)),
)

status-Reports :
    (b : Bool) (r : Response) (body : Data)
    → ((if r.status_code == 200
          then (if body.is_empty
              then none
              else verdict_of (counted body.executed body.success_count body.unknown_count))
          else some false)
        ≡ some b)
      ↔ Reports b r body
status-Reports b r body = elim (Bool-cases (r.status_code == 200)) [
  | inr refused ↦ rw refused (
    λ h. inl (ne_of_beq r.status_code 200 refused, sym (some_injective h)),
    λ h. elim h [
      | inl (_, e) ↦ ap some (sym e)
      | inr (ok, _, _) ↦ absurd (ne_of_beq r.status_code 200 refused ok)
    ],
  )
  | inl ok ↦ elim (Bool-cases body.is_empty) [
    | inl nothing ↦
        rw (ok, nothing)
          (
            λ h. absurd (cc),
            λ h. elim h [
              | inl (other_status, _) ↦ absurd (other_status (eq_of_beq r.status_code 200 ok))
              | inr (_, something_, _) ↦ absurd (cc)
            ],
          )
    | inr something ↦
        rw (ok, something)
          (
            λ h. inr (
              eq_of_beq r.status_code 200 ok,
              refl,
              (counts-Says b body.executed body.success_count body.unknown_count).0 h,
            ),
            λ h. elim h [
              | inl (other_status, _) ↦ absurd (other_status (eq_of_beq r.status_code 200 ok))
              | inr (_, _, says) ↦
                  (counts-Says b body.executed body.success_count body.unknown_count).1 says
            ],
          )
  ]
]

module _ (c : Crypto) (window : ℕ) (secret : String) (loads : String → Option Data) where
  -- A response that is believed, and what it says.
  abbrev pub Trusted : String → ℕ → Cache → Bool → Response → Type 0
  Trusted request_id now cache b r =
      let body = data_or_none (loads r.content.body) in
      (r.status_code ≢ 500)
      × (r.status_code ≢ 504)
      × ((verify c window "broker-response:" secret r.content now cache).0 ≡ accepted)
      × Answers request_id body.request_id r.request_id_header
      × Reports b r body

  believed-Reports :
      (request_id : String) (r : Response) (body : Data) (b : Bool)
      → (believed c window secret loads request_id r body ≡ some b)
        ↔ (Answers request_id body.request_id r.request_id_header × Reports b r body)
  believed-Reports request_id r body b =
      elim (Bool-cases (echoes request_id body.request_id r.request_id_header)) [
        | inl echoed ↦ rw echoed (
          λ h. (
            (echoes-Answers request_id body.request_id r.request_id_header).0 echoed,
            (status-Reports b r body).0 h,
          ),
          λ (_, h). (status-Reports b r body).1 h,
        )
        | inr unnamed ↦ rw unnamed (
          λ h. absurd (cc),
          λ (answers, _).
              let echoed =
                (echoes-Answers request_id body.request_id r.request_id_header).1 answers in
              absurd (ground (arith, echoed, unnamed)),
        )
      ]

  doubtful : (n : ℕ) → ((n == 500) || (n == 504)) ≡ true → n ≢ 500 → n ≢ 504 → ⊥
  doubtful n h a b = ground (arith, h, a, b)

  fine-500 : (n : ℕ) → ((n == 500) || (n == 504)) ≡ false → (n ≢ 500) × (n ≢ 504)
  fine-500 n h = (λ e. ground (arith, h, e), λ e. ground (arith, h, e))

  accepted-only : (v : Verdict) → is_accepted v ≡ true → v ≡ accepted
  accepted-only v h = ground (arith, h)

  genuine_or_not :
      (request_id : String) (now : ℕ) (cache : Cache) (b : Bool) (r : Response)
      → ((r.status_code == 500) || (r.status_code == 504)) ≡ false
      → ((if is_genuine c window secret loads r now cache
            then believed c window secret loads request_id r (data_or_none (loads r.content.body))
            else none)
          ≡ some b)
        ↔ Trusted request_id now cache b r
  genuine_or_not request_id now cache b r fine =
      let iff = believed-Reports request_id r (data_or_none (loads r.content.body)) b in
      let ok = fine-500 r.status_code fine in
      elim (Bool-cases (is_genuine c window secret loads r now cache)) [
        | inl good ↦ rw good (
          λ h. (ok.0, ok.1, accepted-only _ good, (iff.0 h).0, (iff.0 h).1),
          λ (_, _, _, answers, reports). iff.1 (answers, reports),
        )
        | inr bad ↦
            rw bad
              (λ h. absurd (cc), λ (_, _, genuine, _, _). absurd (ground (arith, genuine, bad)))
      ]

  expected-Trusted :
      (request_id : String) (now : ℕ) (cache : Cache) (b : Bool) (r : Response)
      → (expected c window secret loads request_id (some r) now cache ≡ some b)
        ↔ Trusted request_id now cache b r
  expected-Trusted request_id now cache b r =
      let body = data_or_none (loads r.content.body) in
      elim (Bool-cases ((r.status_code == 500) || (r.status_code == 504))) [
        | inl doubt ↦
            rw doubt
              (λ h. absurd (cc), λ (a, k, _, _, _). absurd (doubtful r.status_code doubt a k))
        | inr fine ↦ rw fine (genuine_or_not request_id now cache b r fine)
      ]

  expected-response :
      (request_id : String) (now : ℕ) (cache : Cache) (b : Bool) (reply : Option Response)
      → (expected c window secret loads request_id reply now cache ≡ some b)
        ↔ ((r : Response) × (reply ≡ some r) × Trusted request_id now cache b r)
  expected-response request_id now cache b none = (λ h. absurd (cc), λ (r, e, _). absurd (cc))
  expected-response request_id now cache b (some r) = (
    λ h. (r, refl, (expected-Trusted request_id now cache b r).0 h),
    λ (q, e, t).
        (expected-Trusted request_id now cache b r).1
          (subst (λ z. Trusted request_id now cache b z) (sym (some_injective e)) t),
  )

  given_iff :
      (known_or_not x : Option Bool)
      → (secret == "") ≡ false
      → known_or_not ≡ (if secret == "" then some false else x)
      → known_or_not ≡ x
  given_iff k x set e = e ∙ rw set refl

  -- With a secret, a dispatch ends in a known outcome exactly if there is a response that is trusted
  -- and says so: its status is neither 500 nor 504, the gate accepts its signature in the domain of
  -- responses, it names this request in its body or, where the body names none, in its header, and
  -- its status is not 200, which is a failure, or it is a 200 with a JSON object that is not empty and
  -- whose two counts read as numbers and decide: a failure if nothing was executed, else a success if the first is positive, and else a
  -- failure unless the first is 0 and the second is positive.
  pub known_iff_Trusted :
      (dumps : String → String → String → String → String)
      (attacker_ip tenant source_mac request_id timestamp : String) (reply : Option Response)
      (now : ℕ) (cache : Cache) (b : Bool)
      → (secret == "") ≡ false
      → (verdict_of
            (dispatch_block_via_broker c window secret loads dumps attacker_ip tenant source_mac
              request_id timestamp reply now cache).0
          ≡ some b)
        ↔ ((r : Response) × (reply ≡ some r) × Trusted request_id now cache b r)
  known_iff_Trusted dumps attacker_ip tenant source_mac request_id timestamp reply now cache b set =
      let said =
        known_exactly c window secret loads dumps attacker_ip tenant source_mac request_id timestamp
          reply now cache in
      let known_iff =
        given_iff _ (expected c window secret loads request_id reply now cache) set said in
      (
        λ h. (expected-response request_id now cache b reply).0 (sym known_iff ∙ h),
        λ h. known_iff ∙ (expected-response request_id now cache b reply).1 h,
      )
