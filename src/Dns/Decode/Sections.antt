-- ===== src/Dns/Decode/Sections.antt =====
-- parseSection and the sections of decodeResponse: they return for every parser, with the items that
-- it gives.
use reachrun.Prelude.{
  ℕ, zero, suc, ◌+◌, ◌≤◌, ◌<◌, Bool, true, false, some, List, [], ◌∷◌, ◌++◌, ◌≡◌, ◌⊎◌, inl, inr,
  refl, subst, arith, ltb, length, length-append, Result, ok, err, Bool-cases,
}
use reachrun.Dns.Types.{max_response_records}
use reachrun.Dns.Wire.{Header, Resource, Next, item, section_done, failed, Parser}
use reachrun.Dns.Decode.{
  ParsedResponse, DecodeError, bad_resource, too_many_records, Section, section_loop, parse_section,
  decode_sections,
}

-- The calls numbered from `k` on give these items, one each.
abbrev pub Yields : {A : Type 0} → (ℕ → Next A) → ℕ → List A → Type 0
Yields next k [] = Unit
Yields next k (x ∷ xs) = (next k ≡ item x) × Yields next (k + 1) xs

Yields-append :
    {A : Type 0} (next : ℕ → Next A) (k j : ℕ) (xs : List A) (y : A)
    → j ≡ k + length xs
    → Yields next k xs
    → next j ≡ item y
    → Yields next k (xs ++ y ∷ [])
Yields-append next k j [] y e d h = (subst (λ n. next n ≡ item y) (omega arith) h, tt)
Yields-append next k j (x ∷ xs) y e d h =
    (d.0, Yields-append next (k + 1) j xs y (omega arith) d.1 h)

-- A section as the parser gives it: all items up to the call that ended it.
pub record IsSection (next : ℕ → Next Resource) (allow : Bool) (records : ℕ) (s : Section)
    : Type 0 where
  pub yielded : Yields next 0 s.resources
  pub counted : s.records ≡ records + length s.resources
  pub bounded : s.records ≤ max_response_records
  pub to_end : s.complete ≡ true → next (length s.resources) ≡ section_done
  pub cut_short : s.complete ≡ false → (next (length s.resources) ≡ failed) × (allow ≡ true)

-- What `parseSection` returns, errors included.
abbrev pub SectionSpec : (ℕ → Next Resource) → Bool → ℕ → Result DecodeError Section → Type 0
SectionSpec next allow records (ok s) = IsSection next allow records s
SectionSpec next allow records (err bad_resource) =
    (rs : List Resource) × Yields next 0 rs × (next (length rs) ≡ failed) × (allow ≡ false)
SectionSpec next allow records (err too_many_records) =
    (rs : List Resource) × Yields next 0 rs × (records + length rs ≡ max_response_records + 1)
SectionSpec next allow records (err _) = ⊥

pub Next-cases :
    {A : Type 0} (n : Next A) → ((x : A) × (n ≡ item x)) ⊎ (n ≡ section_done) ⊎ (n ≡ failed)
Next-cases (item x) = inl (x, refl)
Next-cases section_done = inr (inl refl)
Next-cases failed = inr (inr refl)

section_loop-SectionSpec :
    (f : ℕ) (next : ℕ → Next Resource) (allow : Bool) (start k records : ℕ) (result : List Resource)
    → k ≡ length result
    → records ≡ start + k
    → records ≤ max_response_records
    → max_response_records < f + records
    → Yields next 0 result
    → (r : Result DecodeError Section) × (section_loop f next allow k records result ≡ some r)
      × SectionSpec next allow start r
unfolding section_loop
section_loop-SectionSpec zero next allow start k records result at count fits fuel y =
    absurd (omega arith)
section_loop-SectionSpec (suc f) next allow start k records result at count fits fuel y =
    elim (Next-cases (next k)) [
      | inr (inl e) ↦ (
        ok (record { resources = result; complete = true; records = records }),
        ground arith,
        record {
          yielded = y;
          counted = omega arith;
          bounded = fits;
          to_end = λ _. subst (λ n. next n ≡ section_done) at e;
          cut_short = λ h. cc;
        },
      )
      | inr (inr e) ↦
          let e' = subst (λ n. next n ≡ failed) at e in
          elim (Bool-cases allow) [
            | inl a ↦ (
              ok (record { resources = result; complete = false; records = records }),
              ground arith,
              record {
                yielded = y;
                counted = omega arith;
                bounded = fits;
                to_end = λ h. cc;
                cut_short = λ _. (e', a);
              },
            )
            | inr a ↦ (err bad_resource, ground arith, (result, y, e', a))
          ]
      | inl (x, e) ↦
          let y' = Yields-append next 0 k result x (omega arith) y e in
          let grown = length-append result (x ∷ []) in
          elim (Bool-cases (ltb max_response_records (records + 1))) [
            | inl b ↦ (err too_many_records, ground arith, (result ++ x ∷ [], y', ground arith))
            | inr b ↦
                let (r, found, is) =
                  section_loop-SectionSpec f next allow start (k + 1) (records + 1)
                    (result ++ x ∷ []) (omega arith) (omega arith) (ground arith) (omega arith)
                    y' in
                (r, ground arith, is)
          ]
    ]

-- `parseSection` returns, for every parser: the section whole, the part of it before an error where
-- the message was truncated, or the error that stopped it; in each case with the items before.
pub parse_section-SectionSpec :
    (next : ℕ → Next Resource) (allow : Bool) (records : ℕ)
    → records ≤ max_response_records
    → (r : Result DecodeError Section) × (parse_section next allow records ≡ some r)
      × SectionSpec next allow records r
unfolding parse_section
parse_section-SectionSpec next allow records h =
    section_loop-SectionSpec (max_response_records + 1) next allow records 0 records [] refl
      (omega arith) h (omega arith) tt

-- What holds of the three sections of an accepted message.
pub record IsBody (p : Parser) (m : ParsedResponse) : Type 0 where
  pub answers : Yields p.answer 0 m.answers
  pub authorities : Yields p.authority 0 m.authorities
  pub additionals : Yields p.additional 0 m.additionals
  pub bounded :
      length m.answers + length m.authorities + length m.additionals ≤ max_response_records
  pub to_end :
      m.body_complete ≡ true
      → (p.answer (length m.answers) ≡ section_done)
        × (p.authority (length m.authorities) ≡ section_done)
        × (p.additional (length m.additionals) ≡ section_done)
  pub cut_short : m.body_complete ≡ false → m.header.truncated ≡ true

abbrev pub BodySpec : Header → Parser → Result DecodeError ParsedResponse → Type 0
BodySpec h p (ok m) = IsBody p m × (m.header ≡ h)
BodySpec h p (err _) = Unit

pub decode_sections-BodySpec :
    (h : Header) (p : Parser)
    → (r : Result DecodeError ParsedResponse) × (decode_sections h p ≡ some r) × BodySpec h p r
unfolding decode_sections
decode_sections-BodySpec h p =
    let first = parse_section-SectionSpec p.answer h.truncated 0 (omega arith) in
    answers first.0 first.1 first.2
  where
    Goal : Type 0
    Goal = (r : Result DecodeError ParsedResponse) × (decode_sections h p ≡ some r) × BodySpec h p r

    additionals :
        (s t : Section)
        → IsSection p.answer h.truncated 0 s
        → IsSection p.authority h.truncated s.records t
        → s.complete ≡ true
        → t.complete ≡ true
        → (parse_section p.answer h.truncated 0 ≡ some (ok s))
        → (parse_section p.authority h.truncated s.records ≡ some (ok t))
        → (r : Result DecodeError Section)
        → parse_section p.additional h.truncated t.records ≡ some r
        → SectionSpec p.additional h.truncated t.records r
        → Goal
    additionals s t is it cs ct es et (err w) eu iu = (err w, ground arith, tt)
    additionals s t is it cs ct es et (ok u) eu iu = (
      ok (record {
        header = h;
        answers = s.resources;
        authorities = t.resources;
        additionals = u.resources;
        body_complete = u.complete;
      }),
      ground arith,
      (
        record {
          answers = is.yielded;
          authorities = it.yielded;
          additionals = iu.yielded;
          bounded = omega arith;
          to_end = λ e. (is.to_end cs, it.to_end ct, iu.to_end e);
          cut_short = λ e. (iu.cut_short e).1;
        },
        refl,
      ),
    )

    authorities :
        (s : Section)
        → IsSection p.answer h.truncated 0 s
        → s.complete ≡ true
        → (parse_section p.answer h.truncated 0 ≡ some (ok s))
        → (r : Result DecodeError Section)
        → parse_section p.authority h.truncated s.records ≡ some r
        → SectionSpec p.authority h.truncated s.records r
        → Goal
    authorities s is cs es (err w) et it = (err w, ground arith, tt)
    authorities s is cs es (ok t) et it = elim (Bool-cases t.complete) [
      | inl ct ↦
          let (r, eu, iu) =
            parse_section-SectionSpec p.additional h.truncated t.records it.bounded in
          additionals s t is it cs ct es et r eu iu
      | inr ct ↦ (
        ok (record {
          header = h;
          answers = s.resources;
          authorities = t.resources;
          additionals = [];
          body_complete = t.complete;
        }),
        ground arith,
        (
          record {
            answers = is.yielded;
            authorities = it.yielded;
            additionals = tt;
            bounded = omega arith;
            to_end = λ e. absurd (ground arith);
            cut_short = λ e. (it.cut_short e).1;
          },
          refl,
        ),
      )
    ]

    answers :
        (r : Result DecodeError Section)
        → parse_section p.answer h.truncated 0 ≡ some r
        → SectionSpec p.answer h.truncated 0 r
        → Goal
    answers (err w) es is = (err w, ground arith, tt)
    answers (ok s) es is = elim (Bool-cases s.complete) [
      | inl cs ↦
          let (r, et, it) =
            parse_section-SectionSpec p.authority h.truncated s.records is.bounded in
          authorities s is cs es r et it
      | inr cs ↦ (
        ok (record {
          header = h;
          answers = s.resources;
          authorities = [];
          additionals = [];
          body_complete = s.complete;
        }),
        ground arith,
        (
          record {
            answers = is.yielded;
            authorities = tt;
            additionals = tt;
            bounded = omega arith;
            to_end = λ e. absurd (ground arith);
            cut_short = λ e. (is.cut_short e).1;
          },
          refl,
        ),
      )
    ]
