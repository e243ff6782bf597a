-- ===== src/Dns/Evidence/Classified.antt =====
-- The classification that evidenceFromResponse makes is the one that validateEvidenceClassification
-- accepts.
use reachrun.Prelude.{ℕ, Bool, true, false, ◌≡◌, refl, arith, Bytes, bytes_eq_refl, is_empty, ok}
use reachrun.Dns.Types.{Evidence, Input}
use reachrun.Dns.Wire.{Parser}
use reachrun.Dns.Decode.{ParsedResponse}
use reachrun.Dns.Decode.Sections.{IsBody}
use reachrun.Dns.Cnames.{follow_cnames}
use reachrun.Dns.Evidence.{Library, classify_answer, evidence_from_response}
use reachrun.Dns.Validate.{Checks, validate_kind, validate_evidence_classification}

module _ (lib : Library) (c : Checks) (m : ParsedResponse) (input : Input) (bytes : ℕ)
    (endpoint : Bytes) (status : ℕ) where
  abbrev evidence : Evidence
  evidence = evidence_from_response lib m input bytes endpoint status

  abbrev followed : Bytes × Bool
  followed = follow_cnames input.hostname evidence.records

  kind_accepted :
      (m.body_complete ≡ false → m.header.truncated ≡ true)
      → validate_kind input evidence followed.0 followed.1 ≡ ok tt
  unfolding evidence_from_response classify_answer validate_kind
  kind_accepted h = ground arith

  effective_name-evidence : evidence.effective_name ≡ followed.0
  unfolding evidence_from_response
  effective_name-evidence = refl

  -- The evidence made of an accepted response passes `validateEvidenceClassification`, where its
  -- effective name is not empty and canonical.
  pub evidence_classification-accepted :
      (p : Parser)
      → IsBody p m
      → is_empty evidence.effective_name ≡ false
      → c.canonical evidence.effective_name ≡ true
      → validate_evidence_classification c input evidence ≡ ok tt
  unfolding validate_evidence_classification
  evidence_classification-accepted p b ne can =
      ground (arith, effective_name-evidence, bytes_eq_refl followed.0, kind_accepted b.cut_short)
