-- ===== src/Dns/Decode.antt =====
-- decodeResponse, parseSection and validateResponseIdentity of internal/dnsobservation/message.go.
pub mod Sections
pub mod Accepted
use reachrun.Prelude.{
  ℕ, zero, suc, ◌+◌, ◌-◌, Bool, true, false, not, ◌&&◌, ◌||◌, Option, none, some, List, [], ◌∷◌,
  ◌++◌, ltb, ◌==◌, if◌then◌else◌, Bytes, length, Result, ok, err,
}
use reachrun.Dns.Types.{max_dns_message_bytes, max_response_records}
use reachrun.Dns.Wire.{
  Header, Question, Resource, Next, item, section_done, failed, Parser, class_inet,
}

pub record ExpectedResponse : Type 0 where
  pub id : ℕ
  pub name : Bytes
  pub qtype : ℕ

pub record ParsedResponse : Type 0 where
  pub header : Header
  pub answers : List Resource
  pub authorities : List Resource
  pub additionals : List Resource
  pub body_complete : Bool

pub data DecodeError : Type 0 where
  bad_size bad_header bad_question too_many_questions : DecodeError
  not_response wrong_opcode wrong_id question_count question_mismatch : DecodeError
  bad_resource too_many_records : DecodeError

-- `strings.EqualFold`, of the standard library, is a parameter.
module _ (equal_fold : Bytes → Bytes → Bool) where
  unfoldable pub question_matches : Question → ExpectedResponse → Bool
  question_matches q e = equal_fold q.name e.name && (q.type == e.qtype) && (q.class == class_inet)

  unfoldable pub validate_response_identity :
      Header → List Question → ExpectedResponse → Result DecodeError Unit
  validate_response_identity h qs e =
      if not h.response
      then err not_response
      else if not (h.op_code == 0)
      then err wrong_opcode
      else if not (h.id == e.id)
      then err wrong_id
      else elim qs [
        | [] ↦ err question_count
        | q ∷ [] ↦ if question_matches q e then ok tt else err question_mismatch
        | _ ↦ err question_count
      ]

-- A result that fuel may cut short: `none` means that it ran out.
abbrev pub Fueled : Type 0 → Type 0
Fueled A = Option (Result DecodeError A)

infixl 5 ◌>>=◌ ◌>>◌
abbrev pub ◌>>=◌ : {A B : Type 0} → Fueled A → (A → Fueled B) → Fueled B
none >>= f = none
some (ok a) >>= f = f a
some (err e) >>= f = some (err e)

abbrev pub ◌>>◌ : {A B : Type 0} → Fueled A → Fueled B → Fueled B
m >> n = m >>= λ _. n

-- The loop over `parser.Question`, at its k-th call.
question_loop : ℕ → (ℕ → Next Question) → ℕ → List Question → Fueled (List Question)
question_loop zero next k questions = none
question_loop (suc f) next k questions = elim (next k) [
  | section_done ↦ some (ok questions)
  | failed ↦ some (err bad_question)
  | item q ↦ elim (ltb 1 (length (questions ++ q ∷ []))) [
    | true ↦ some (err too_many_questions)
    | false ↦ question_loop f next (k + 1) (questions ++ q ∷ [])
  ]
]

unfoldable pub read_questions : (ℕ → Next Question) → Fueled (List Question)
unfolding question_loop
read_questions next = question_loop 2 next 0 []

-- The resources of a section, whether it was read to its end, and the running record count.
pub record Section : Type 0 where
  pub resources : List Resource
  pub complete : Bool
  pub records : ℕ

-- The loop of `parseSection` at its k-th call of `next`; `none` means that the fuel ran out.
section_loop : ℕ → (ℕ → Next Resource) → Bool → ℕ → ℕ → List Resource → Fueled Section
section_loop zero next allow k records result = none
section_loop (suc f) next allow k records result = elim (next k) [
  | section_done ↦ some (ok (record { resources = result; complete = true; records = records }))
  | failed ↦
      if allow
      then some (ok (record { resources = result; complete = false; records = records }))
      else some (err bad_resource)
  | item r ↦ elim (ltb max_response_records (records + 1)) [
    | true ↦ some (err too_many_records)
    | false ↦ section_loop f next allow (k + 1) (records + 1) (result ++ r ∷ [])
  ]
]

unfoldable pub parse_section : (ℕ → Next Resource) → Bool → ℕ → Fueled Section
unfolding section_loop
parse_section next allow records = section_loop (max_response_records + 1) next allow 0 records []

-- The three sections, each from where the record count stands, up to one that was cut short.
unfoldable pub decode_sections : Header → Parser → Fueled ParsedResponse
decode_sections h p = do
  s ← parse_section p.answer h.truncated 0
  let parsed : ParsedResponse = record {
    header = h;
    answers = s.resources;
    authorities = [];
    additionals = [];
    body_complete = s.complete;
  }
  if not s.complete then some (ok parsed) else do
    t ← parse_section p.authority h.truncated s.records
    let parsed' = record parsed { authorities = t.resources; body_complete = t.complete }
    if not t.complete then some (ok parsed') else do
      u ← parse_section p.additional h.truncated t.records
      some (ok (record parsed' { additionals = u.resources; body_complete = u.complete }))

-- `decodeResponse` of a message of `size` bytes.
module _ (equal_fold : Bytes → Bytes → Bool) where
  unfoldable pub decode_questions :
      Header → Parser → ExpectedResponse → List Question → Fueled ParsedResponse
  decode_questions h p e qs = do
    some (validate_response_identity equal_fold h qs e)
    decode_sections h p

  unfoldable pub decode_response : ℕ → Parser → ExpectedResponse → Fueled ParsedResponse
  decode_response size p e =
      if size == 0 || ltb max_dns_message_bytes size then some (err bad_size) else elim p.start [
        | none ↦ some (err bad_header)
        | some h ↦ do qs ← read_questions p.question; decode_questions h p e qs
      ]
