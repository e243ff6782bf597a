-- ===== src/Dns/Decode/Accepted.antt =====
-- decodeResponse returns for every parser, and what it accepts.
use reachrun.Prelude.{
  Result-cases, ℕ, ◌≤◌, ◌<◌, Bool, true, false, ◌||◌, some, List, [], ◌∷◌, ◌≡◌, inl, inr, arith,
  ltb, ◌==◌, Bytes, Result, ok, err, Bool-cases, Option-cases,
}
use reachrun.Dns.Types.{max_dns_message_bytes}
use reachrun.Dns.Wire.{Header, Question, item, section_done, Parser, class_inet}
use reachrun.Dns.Decode.{
  ExpectedResponse, ParsedResponse, DecodeError, bad_size, bad_header, bad_question,
  too_many_questions, question_matches, validate_response_identity, read_questions,
  decode_questions, decode_response,
}
use reachrun.Dns.Decode.Sections.{Next-cases, IsBody, BodySpec, decode_sections-BodySpec}

-- A response to the request: its header and its one question.
pub record IsReply (equal_fold : Bytes → Bytes → Bool) (h : Header) (p : Parser)
    (e : ExpectedResponse) : Type 0 where
  pub question : Question
  pub asked : p.question 0 ≡ item question
  pub asked_once : p.question 1 ≡ section_done
  pub response : h.response ≡ true
  pub opcode : h.op_code ≡ 0
  pub same_id : h.id ≡ e.id
  pub same_name : equal_fold question.name e.name ≡ true
  pub same_type : question.type ≡ e.qtype
  pub inet : question.class ≡ class_inet

pub record IsAccepted (equal_fold : Bytes → Bytes → Bool) (size : ℕ) (p : Parser)
    (e : ExpectedResponse) (m : ParsedResponse) : Type 0 where
  pub not_empty : 0 < size
  pub size_fits : size ≤ max_dns_message_bytes
  pub start : p.start ≡ some m.header
  pub reply : IsReply equal_fold m.header p e
  pub body : IsBody p m

abbrev pub DecodeSpec :
    (Bytes → Bytes → Bool)
    → ℕ
    → Parser
    → ExpectedResponse
    → Result DecodeError ParsedResponse
    → Type 0
DecodeSpec equal_fold size p e (ok m) = IsAccepted equal_fold size p e m
DecodeSpec equal_fold size p e (err _) = Unit

module _ (equal_fold : Bytes → Bytes → Bool) (p : Parser) (e : ExpectedResponse) where
  abbrev QuestionsSpec : Header → Result DecodeError (List Question) → Type 0
  QuestionsSpec h (err _) = Unit
  QuestionsSpec h (ok qs) =
      validate_response_identity equal_fold h qs e ≡ ok tt → IsReply equal_fold h p e

  read_questions-QuestionsSpec :
      (h : Header)
      → (r : Result DecodeError (List Question)) × (read_questions p.question ≡ some r)
        × QuestionsSpec h r
  unfolding read_questions validate_response_identity question_matches
  read_questions-QuestionsSpec h = elim (Next-cases (p.question 0)) [
    | inr (inl a) ↦ (ok [], ground arith, λ v. absurd (ground arith))
    | inr (inr a) ↦ (err bad_question, ground arith, tt)
    | inl (q, a) ↦ elim (Next-cases (p.question 1)) [
      | inr (inr b) ↦ (err bad_question, ground arith, tt)
      | inl (r, b) ↦ (err too_many_questions, ground arith, tt)
      | inr (inl b) ↦ (
        ok (q ∷ []),
        ground arith,
        λ v. record {
          question = q;
          asked = a;
          asked_once = b;
          response = ground arith;
          opcode = ground arith;
          same_id = ground arith;
          same_name = ground arith;
          same_type = ground arith;
          inet = ground arith;
        },
      )
    ]
  ]

  decode_questions-DecodeSpec :
      (size : ℕ) (h : Header) (qs : List Question)
      → 0 < size
      → size ≤ max_dns_message_bytes
      → p.start ≡ some h
      → QuestionsSpec h (ok qs)
      → (r : Result DecodeError ParsedResponse) × (decode_questions equal_fold h p e qs ≡ some r)
        × DecodeSpec equal_fold size p e r
  unfolding decode_questions
  decode_questions-DecodeSpec size h qs pos fits start spec =
      elim (Result-cases (validate_response_identity equal_fold h qs e)) [
        | inr (w, a) ↦ (err w, ground arith, tt)
        | inl (tt, a) ↦
            let (r, found, body) = decode_sections-BodySpec h p in
            (r, ground arith, accepted r body (spec a))
      ]
    where
      accepted :
          (r : Result DecodeError ParsedResponse)
          → BodySpec h p r
          → IsReply equal_fold h p e
          → DecodeSpec equal_fold size p e r
      accepted (err w) b q = tt
      accepted (ok m) b q = record {
        not_empty = pos;
        size_fits = fits;
        start = rw b.1 start;
        reply = rw b.1 q;
        body = b.0;
      }

  -- `decodeResponse` returns for every message, whatever the parser makes of it. What it accepts is
  -- of an allowed size, is a response to the request (its id, opcode 0 and the one question), holds
  -- the items of each section in order and 128 at most, and is incomplete only if truncated.
  pub decode_response-DecodeSpec :
      (size : ℕ)
      → (r : Result DecodeError ParsedResponse) × (decode_response equal_fold size p e ≡ some r)
        × DecodeSpec equal_fold size p e r
  unfolding decode_response
  decode_response-DecodeSpec size =
      elim (Bool-cases (size == 0 || ltb max_dns_message_bytes size)) [
        | inl bad ↦ (err bad_size, ground arith, tt)
        | inr good ↦ elim (Option-cases p.start) [
          | inl s ↦ (err bad_header, ground arith, tt)
          | inr (h, s) ↦
              let (r, found, spec) = read_questions-QuestionsSpec h in
              questions good h s r found spec
        ]
      ]
    where
      questions :
          (size == 0 || ltb max_dns_message_bytes size) ≡ false
          → (h : Header) → p.start ≡ some h
          → (r : Result DecodeError (List Question)) → read_questions p.question ≡ some r
          → QuestionsSpec h r
          → (r : Result DecodeError ParsedResponse) × (decode_response equal_fold size p e ≡ some r)
            × DecodeSpec equal_fold size p e r
      questions good h s (err w) found spec = (err w, ground arith, tt)
      questions good h s (ok qs) found spec =
          let (r, done, is) =
            decode_questions-DecodeSpec size h qs (ground arith) (ground arith) s spec in
          (r, ground arith, is)
