-- ===== src/Tests/Dns.antt =====
-- internal/dnsobservation on one response: a CNAME record, an A record and an HTTPS record.
use reachrun.Prelude.{
  ℕ, zero, suc, true, false, not, none, some, List, [], ◌∷◌, ◌≡◌, refl, arith, Bytes, codes,
  bytes_eq, trim_suffix, find, contains, is_empty, inl, inr, ok, Result,
}
use reachrun.Dns.Types
use reachrun.Dns.Types.{
  QueryType, query_type_eq, Input, Evidence, ServiceBinding, Record, AnswerKind,
  max_response_records,
}
use reachrun.Dns.Wire.{Header, Question, Resource, Body, Next, item, section_done, Parser}
use reachrun.Dns.Decode.{
  ExpectedResponse, ParsedResponse, Section, decode_response, parse_section, decode_questions,
  decode_sections, validate_response_identity, read_questions, DecodeError, question_matches,
}
use reachrun.Dns.Decode.Accepted.{IsAccepted, DecodeSpec, decode_response-DecodeSpec}
use reachrun.Dns.Decode.Sections.{IsBody, SectionSpec, parse_section-SectionSpec}
use reachrun.Dns.Cnames.{follow_cnames, walk, collect, collect_step}
use reachrun.Dns.Cnames.Chain.{here, next, Ends}
use reachrun.Dns.Cnames.Walk.{IsFollowed, follow_cnames-IsFollowed, follow_cnames_unique}
use reachrun.Dns.Evidence.{
  Library, evidence_from_response, classify_answer, answer_records, answer_record, address_record,
  canonical_name, response_rcode, has_requested, wanted_name,
}
use reachrun.Dns.Evidence.Complete.{EvidenceFits, evidence-valid}
use reachrun.Dns.Evidence.Classified.{evidence_classification-accepted}
use reachrun.Dns.Validate.{Checks, validate_evidence, validate_evidence_classification}

abbrev lib : Library
lib = record {
  to_lower = λ name. name;
  ipv4_text = λ _. codes "192.0.2.1";
  ipv6_text = λ _. codes "2001:db8::1";
  extended_rcode = λ ttl rcode. rcode;
}

abbrev checks : Checks
checks = record {
  canonical = λ name. not (is_empty name);
  ipv4_text = bytes_eq (codes "192.0.2.1");
  ipv6_text = bytes_eq (codes "2001:db8::1");
}

abbrev header : Header
header = record {
  id = 7;
  response = true;
  op_code = 0;
  authoritative = false;
  truncated = false;
  recursion_desired = true;
  recursion_available = true;
  authentic_data = false;
  checking_disabled = false;
  rcode = 0;
}

abbrev answers : List Resource
answers =
    record {
      name = codes "a.test.";
      type = 5;
      class = 1;
      ttl = 60;
      body = Body.cname (codes "b.test.");
    }
    ∷ record {
      name = codes "b.test.";
      type = 1;
      class = 1;
      ttl = 60;
      body = Body.a (192 ∷ 0 ∷ 2 ∷ 1 ∷ []);
    }
    ∷ []

abbrev listed : {A : Type 0} → List A → ℕ → Next A
listed [] k = section_done
listed (x ∷ xs) zero = item x
listed (x ∷ xs) (suc k) = listed xs k

abbrev question : Question
question = record { name = codes "a.test."; type = 1; class = 1 }

abbrev parser : Parser
parser = record {
  start = some header;
  question = listed (question ∷ []);
  answer = listed answers;
  authority = λ _. section_done;
  additional = λ _. section_done;
}

abbrev expected : ExpectedResponse
expected = record { id = 7; name = codes "a.test."; qtype = 1 }

abbrev message : ParsedResponse
message = record {
  header = header;
  answers = answers;
  authorities = [];
  additionals = [];
  body_complete = true;
}

abbrev input : Input
input = record {
  hostname = codes "a.test";
  query_type = QueryType.a;
  class = codes "IN";
  resolver = record { id = codes "r"; endpoint = codes "192.0.2.53:53" };
  transport = Types.udp;
}

abbrev endpoint : Bytes
endpoint = codes "192.0.2.53:53"

abbrev evidence : Evidence
evidence = evidence_from_response lib message input 80 endpoint 0

message-IsBody : IsBody parser message
message-IsBody = record {
  answers = (refl, (refl, tt));
  authorities = tt;
  additionals = tt;
  bounded = omega arith;
  to_end = λ _. (refl, refl, refl);
  cut_short = λ h. cc;
}

message-IsAccepted : IsAccepted bytes_eq 80 parser expected message
unfolding bytes_eq
message-IsAccepted = record {
  not_empty = omega arith;
  size_fits = omega arith;
  start = refl;
  body = message-IsBody;
  reply = record {
    question = question;
    asked = refl;
    asked_once = refl;
    response = refl;
    opcode = refl;
    same_id = refl;
    same_name = refl;
    same_type = refl;
    inet = refl;
  };
}

message-EvidenceFits : EvidenceFits lib checks message input endpoint 0
unfolding bytes_eq canonical_name trim_suffix
message-EvidenceFits = record {
  texts = record { ipv4 = λ _. refl; ipv6 = λ _. refl };
  answers = ((refl, refl), ((refl, tt), tt));
  authorities = tt;
  endpoint_given = refl;
  hostname = refl;
  no_empty_name = refl;
  status_fits = refl;
}

decode-message : decode_response bytes_eq 80 parser expected ≡ some (ok message)
unfolding decode_response decode_questions decode_sections read_questions validate_response_identity
    parse_section question_matches bytes_eq
decode-message = refl

classify-message : evidence.answer_kind ≡ AnswerKind.answer
unfolding evidence_from_response classify_answer follow_cnames walk answer_records answer_record
    find collect collect_step query_type_eq address_record bytes_eq canonical_name trim_suffix
    contains response_rcode has_requested wanted_name
classify-message = refl

evidence-valid_example : validate_evidence checks true input evidence ≡ ok tt
evidence-valid_example =
    evidence-valid lib checks message input 80 endpoint 0 bytes_eq parser expected
      message-IsAccepted message-EvidenceFits

evidence_classification-accepted_example :
    validate_evidence_classification checks input evidence ≡ ok tt
unfolding evidence_from_response follow_cnames walk answer_records answer_record find collect
    collect_step query_type_eq address_record bytes_eq canonical_name trim_suffix contains
evidence_classification-accepted_example =
    evidence_classification-accepted lib checks message input 80 endpoint 0 parser message-IsBody
      refl refl

decode_response-DecodeSpec_example :
    (r : Result DecodeError ParsedResponse) × (decode_response bytes_eq 80 parser expected ≡ some r)
    × DecodeSpec bytes_eq 80 parser expected r
decode_response-DecodeSpec_example = decode_response-DecodeSpec bytes_eq parser expected 80

parse_section-SectionSpec_example :
    (r : Result DecodeError Section) × (parse_section (listed answers) false 3 ≡ some r)
    × SectionSpec (listed answers) false 3 r
parse_section-SectionSpec_example = parse_section-SectionSpec (listed answers) false 3 (omega arith)

abbrev cname : Bytes → Bytes → Record
cname name target = record {
  name = name;
  type = QueryType.cname;
  ttl = 60;
  address = [];
  family = Types.IpFamily.none;
  target = target;
  service = none;
}

abbrev chain : List Record
chain = cname (codes "b") (codes "c") ∷ cname (codes "a") (codes "b") ∷ []

abbrev cycle : List Record
cycle = cname (codes "b") (codes "a") ∷ cname (codes "a") (codes "b") ∷ []

follow-chain : follow_cnames (codes "a") chain ≡ (codes "c", true)
unfolding follow_cnames walk collect collect_step find contains bytes_eq query_type_eq
follow-chain = refl

follow-cycle : follow_cnames (codes "a") cycle ≡ (codes "b", false)
unfolding follow_cnames walk collect collect_step find contains bytes_eq query_type_eq
follow-cycle = refl

follow_cnames-IsFollowed_example : IsFollowed (codes "a") cycle (follow_cnames (codes "a") cycle)
follow_cnames-IsFollowed_example = follow_cnames-IsFollowed (codes "a") cycle

chain-Ends : Ends chain (codes "c")
chain-Ends t (inl h) = ground (arith, h.1)
chain-Ends t (inr (inl h)) = ground (arith, h.1)
chain-Ends t (inr (inr x)) = elim x [ ]

follow_cnames_unique_example : codes "c" ≡ (follow_cnames (codes "a") chain).0
follow_cnames_unique_example =
    follow_cnames_unique (codes "a") chain (codes "c") (rw follow-chain refl)
      (next (inr (inl (refl, refl, refl))) (next (inl (refl, refl, refl)) here)) chain-Ends
