-- ===== src/Slo/Claims/Vanished.antt =====
-- What `_vanished_claims_detail` reports.
use suburban_soc.Base.{
  String, ◌≡◌, refl, some, List, [], ◌∷◌, map, arith, nat_eq, string_eq, beq_refl, if◌then◌else◌,
  length, select, any,
}
use suburban_soc.Base.Http.{replied}
use suburban_soc.Slo.{measured, unavailable, DocRef, Got, Entry, Cluster, read_ok}
use suburban_soc.Slo.Claims.{
  unfound, is_error, asked, usable, first_or_empty, not_found, compared, vanished_claims_detail,
}

any-map :
    (look : DocRef → Got) (ds : List DocRef)
    → any is_error (map look ds) ≡ any (λ d. is_error (look d)) ds
any-map look [] = refl
any-map look (d ∷ ds) = ground (arith, any-map look ds)

length-map : (look : DocRef → Got) (ds : List DocRef) → length (map look ds) ≡ length ds
length-map look [] = refl
length-map look (d ∷ ds) = omega (arith, length-map look ds)

not_found-map :
    (look : DocRef → Got) (ds : List DocRef)
    → not_found ds (map look ds) ≡ select (λ d. unfound (look d)) ds
unfolding not_found
not_found-map look [] = refl
not_found-map look (d ∷ ds) = ground (arith, not_found-map look ds)

compared-map :
    (look : DocRef → Got) (ds : List DocRef)
    → compared ds (map look ds) ≡ (
        if any (λ d. is_error (look d)) ds
        then unavailable
        else measured (select (λ d. unfound (look d)) ds))
unfolding compared
compared-map look ds =
    rw (any-map look ds, length-map look ds, beq_refl (length ds), not_found-map look ds) refl

-- What `_mget` answers, where `look` says of a document whether it is there.
abbrev pub Looks : Cluster → (DocRef → Got) → Type 0
Looks c look = (ds : List DocRef) → c.mget ds ≡ replied 200 (some (map look ds))

asked-map :
    (c : Cluster) (look : DocRef → Got)
    → Looks c look
    → (ds : List DocRef) → asked c ds ≡ measured (map look ds)
unfolding read_ok
asked-map c look h [] = refl
asked-map c look h (d ∷ ds) = rw (h (d ∷ ds)) refl

-- The report on the last sample is its claims that are not there. Where one cannot be read, it is no
-- measurement; entries of the sample that are no claim documents are passed over.
pub vanished_claims_exact :
    (c : Cluster) (look : DocRef → Got) (age : String) (samples : List (List Entry))
    → Looks c look
    → c.prior_snapshot age ≡ replied 200 (some samples)
    → let claims = usable (first_or_empty samples) in
      vanished_claims_detail c age ≡ (
        if any (λ d. is_error (look d)) claims
        then unavailable
        else measured (select (λ d. unfound (look d)) claims))
unfolding vanished_claims_detail read_ok
vanished_claims_exact c look age samples h prior =
    rw (prior, asked-map c look h) (compared-map look (usable (first_or_empty samples)))
