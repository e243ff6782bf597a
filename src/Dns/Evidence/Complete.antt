-- ===== src/Dns/Evidence/Complete.antt =====
-- The evidence of an accepted response passes every check of Validate.
use reachrun.Prelude.{
  ℕ, ◌+◌, ◌≤◌, Bool, true, false, not, ◌&&◌, List, [], ◌∷◌, ◌≡◌, refl, arith, Bytes, bytes_eq_refl,
  is_empty, length, All, IfSome, ok, inl, inr, ◌⊎◌, Result, check_all,
}
use reachrun.Dns.Cnames.{follow_cnames}
use reachrun.Dns.Cnames.Chain.{HasCname, Chain, here, next}
use reachrun.Dns.Cnames.Walk.{follow_cnames-IsFollowed}
use reachrun.Dns.Types.{Evidence, Record, Input, max_response_records}
use reachrun.Dns.Wire.{Parser}
use reachrun.Dns.Decode.{ParsedResponse, ExpectedResponse}
use reachrun.Dns.Decode.Accepted.{IsAccepted}
use reachrun.Dns.Decode.Sections.{IsBody}
use reachrun.Dns.Evidence.{
  Library, evidence_from_response, response_code_name, keeps_soa, has_value, classify_answer,
}
use reachrun.Dns.Evidence.Classified.{evidence_classification-accepted}
use reachrun.Dns.Evidence.Records.{
  TextsFit, Fits, answer_records-valid, length-answer_records, authority-valid,
}
use reachrun.Dns.Validate.{
  Checks, Invalid, validate_evidence, validate_record, validate_ns_record, validate_soa,
  doh_status_fits, is_incomplete,
}

check_all-All :
    {A : Type 0} (check : A → Result Invalid Unit) (xs : List A)
    → All (λ x. check x ≡ ok tt) xs
    → check_all check xs ≡ ok tt
unfolding check_all
check_all-All check [] h = refl
check_all-All check (x ∷ xs) h = ground (arith, check_all-All check xs h.1)

HasCname-canonical :
    (c : Checks) (rs : List Record) (n t : Bytes)
    → check_all (validate_record c) rs ≡ ok tt
    → HasCname n t rs
    → c.canonical t ≡ true
unfolding check_all validate_record
HasCname-canonical c [] n t h k = elim k [ ]
HasCname-canonical c (r ∷ rs) n t h (inr k) = HasCname-canonical c rs n t (ground arith) k
HasCname-canonical c (r ∷ rs) n t h (inl (is, at, to)) = ground arith

empty_cases : (s : Bytes) → (s ≡ []) ⊎ (is_empty s ≡ false)
empty_cases [] = inl refl
empty_cases (x ∷ s) = inr refl

Chain-end :
    {rs : List Record} {n e : Bytes} → Chain rs n e → (e ≡ n) ⊎ ((k : Bytes) × HasCname k e rs)
Chain-end here = inl refl
Chain-end (next {n} {t} {e} k c) = elim (Chain-end c) [
  | inl same ↦ inr (n, rw same k)
  | inr found ↦ inr found
]

-- What the evidence needs beside an accepted message: canonical names and addresses, and what the
-- transport records.
pub record EvidenceFits (lib : Library) (c : Checks) (m : ParsedResponse) (input : Input)
    (endpoint : Bytes) (status : ℕ) : Type 0 where
  pub texts : TextsFit lib c
  pub answers : All (Fits lib c) m.answers
  pub authorities : All (Fits lib c) m.authorities
  pub endpoint_given : is_empty endpoint ≡ false
  pub hostname : c.canonical input.hostname ≡ true
  pub no_empty_name : c.canonical [] ≡ false
  pub status_fits : doh_status_fits input.transport status ≡ true

module _ (lib : Library) (c : Checks) (m : ParsedResponse) (input : Input) (size : ℕ)
    (endpoint : Bytes) (status : ℕ) where
  abbrev evidence : Evidence
  evidence = evidence_from_response lib m input size endpoint status

  effective_name-evidence :
      evidence.effective_name ≡ (follow_cnames input.hostname evidence.records).0
  unfolding evidence_from_response
  effective_name-evidence = refl

  truncated-incomplete :
      (evidence.flags.truncated && not (is_incomplete evidence.answer_kind)) ≡ false
  unfolding evidence_from_response classify_answer
  truncated-incomplete = ground arith

  soa-kept : (has_value evidence.negative_soa && not (keeps_soa evidence.answer_kind)) ≡ false
  unfolding evidence_from_response
  soa-kept = ground arith

  module _ (t : EvidenceFits lib c m input endpoint status) where
    records-valid : check_all (validate_record c) evidence.records ≡ ok tt
    unfolding evidence_from_response
    records-valid = answer_records-valid lib c t.texts m.answers t.answers

    ns-valid : check_all (validate_ns_record c) evidence.authority_ns ≡ ok tt
    unfolding evidence_from_response
    ns-valid =
        check_all-All (validate_ns_record c) _
          (authority-valid lib c m.authorities t.authorities).ns_valid

    soa-valid : IfSome (λ s. validate_soa c s ≡ ok tt) Unit evidence.negative_soa
    unfolding evidence_from_response
    soa-valid = ground (arith, (authority-valid lib c m.authorities t.authorities).soa_valid)

    effective-canonical : c.canonical evidence.effective_name ≡ true
    effective-canonical =
        let f = follow_cnames-IsFollowed input.hostname evidence.records in
        let ends = Chain-end (rw (← effective_name-evidence) at f.reached) in
        elim ends [
          | inl e ↦ rw e t.hostname
          | inr (k, h) ↦
              HasCname-canonical c evidence.records k evidence.effective_name records-valid h
        ]

    effective-ne-nil : is_empty evidence.effective_name ≡ false
    effective-ne-nil = elim (empty_cases evidence.effective_name) [
      | inl e ↦ absurd (ground (arith, effective-canonical, t.no_empty_name, e))
      | inr e ↦ e
    ]

    sizes :
        (p : Parser)
        → IsBody p m
        → length evidence.records + length evidence.authority_ns ≤ max_response_records
    unfolding evidence_from_response
    sizes p b = omega (
      arith,
      b.bounded,
      length-answer_records lib c m.answers,
      (authority-valid lib c m.authorities t.authorities).ns_bounded,
    )

  fields-kept :
      (evidence.rcode.name ≡ response_code_name evidence.rcode.code)
      × (evidence.response_bytes ≡ size)
      × (evidence.remote_endpoint ≡ endpoint)
      × (evidence.doh_status ≡ status)
  unfolding evidence_from_response
  fields-kept = (refl, refl, refl, refl)

  -- The evidence that `evidenceFromResponse` makes of an accepted response passes the evidence checks
  -- of `Validate`, where the hostname asked for and the names of the message are canonical, its service
  -- parameters rise, the texts of addresses are canonical, the remote endpoint is valid and the DoH status fits the transport.
  pub evidence-valid :
      (equal_fold : Bytes → Bytes → Bool) (p : Parser) (e : ExpectedResponse)
      → IsAccepted equal_fold size p e m
      → EvidenceFits lib c m input endpoint status
      → validate_evidence c true input evidence ≡ ok tt
  unfolding validate_evidence
  evidence-valid equal_fold p e a f =
      let (name_is, size_is, endpoint_is, status_is) = fields-kept in
      let can = effective-canonical f in
      let ne = effective-ne-nil f in
      let classified =
        evidence_classification-accepted lib c m input size endpoint status p a.body ne can in
      let bound = sizes f p a.body in
      ground (
        arith,
        name_is,
        size_is,
        endpoint_is,
        status_is,
        classified,
        bound,
        a.not_empty,
        a.size_fits,
        f.endpoint_given,
        f.status_fits,
        truncated-incomplete,
        soa-kept,
        records-valid f,
        ns-valid f,
        soa-valid f,
        bytes_eq_refl (response_code_name evidence.rcode.code),
      )
