-- ===== src/Ssh/Identification/Fields.antt =====
-- What the steps of parseIdentificationLine accept, one lemma each way for each step.
use reachrun.Prelude.{
  ℕ, Bool, true, false, not, [], ◌∷◌, ◌++◌, ◌≡◌, ◌≢◌, ◌⊎◌, inl, inr, refl, ap, sym, subst, ◌∙◌,
  arith, Bytes, codes, bytes_eq, bytes_eq_iff, strip_prefix, strip_prefix-append,
  append_of_strip_prefix, cut, cut-append, cut-none, cut-first, split_last, split_last-append,
  append_of_split_last, is_empty, all, and_true, append-nil, Option-cases, All, ok, append_assoc,
}
use reachrun.Ssh.Identification.{
  Identification, ssh_prefix, cr, lf, valid_protocol_version, valid_version_field, valid_comments,
  software_byte, comment_byte, check_fields, split_comments, split_versions, strip_cr,
  parse_content,
}

-- "SSH-protoversion-softwareversion SP comments", with no space where there are no comments.
abbrev pub comment_part : Bytes → Bytes
comment_part [] = []
comment_part (c ∷ cs) = b' ' ∷ c ∷ cs

abbrev pub print_identification : Bytes → Bytes → Bytes → Bytes
print_identification protocol software comments =
    ssh_prefix ++ (protocol ++ b'-' ∷ (software ++ comment_part comments))

-- What a line end may be: CR LF, or LF alone unless the version is 2.0.
abbrev pub line_end : Bool → Bytes
line_end true = cr ∷ lf ∷ []
line_end false = lf ∷ []

abbrev pub fields : Bytes → Bytes → Bytes → Bytes → Identification
fields content pv sv cs = record {
  raw = content;
  protocol_version = pv;
  software_version = sv;
  comments = cs;
  preamble_lines = 0;
  client_line_sent = false;
}

pub record Accepts (had_cr : Bool) (pv sv cs : Bytes) : Type 0 where
  pub protocol_ok : valid_protocol_version pv ≡ true
  pub crlf : bytes_eq pv (codes "2.0") ≡ true → had_cr ≡ true
  pub software_ok : valid_version_field sv ≡ true
  pub comments_ok : valid_comments cs ≡ true

software-no_space : (sv : Bytes) → all software_byte sv ≡ true → All (λ x. x ≢ b' ') sv
software-no_space [] h = tt
software-no_space (c ∷ sv) h = ground (arith, software-no_space sv)

valid-no_space : (sv : Bytes) → valid_version_field sv ≡ true → All (λ x. x ≢ b' ') sv
valid-no_space sv h = software-no_space sv (and_true (not (is_empty sv)) (all software_byte sv) h).1

module _ (content : Bytes) (had_cr : Bool) (pv : Bytes) where
  check_fields_sound :
      (sv cs : Bytes) {p : Identification}
      → check_fields content had_cr pv sv cs ≡ ok p
      → (p ≡ fields content pv sv cs) × Accepts had_cr pv sv cs
  unfolding check_fields
  check_fields_sound sv [] h = ground arith
  check_fields_sound sv (c ∷ cs) h = ground arith

  check_fields_complete :
      (sv cs : Bytes)
      → Accepts had_cr pv sv cs
      → check_fields content had_cr pv sv cs ≡ ok (fields content pv sv cs)
  unfolding check_fields
  check_fields_complete sv [] h = ground arith
  check_fields_complete sv (c ∷ cs) h = ground arith

  split_comments_sound :
      (rest : Bytes) {p : Identification}
      → split_comments content had_cr pv rest ≡ ok p
      → (sv : Bytes) × (cs : Bytes) × (rest ≡ sv ++ comment_part cs)
        × (p ≡ fields content pv sv cs)
        × Accepts had_cr pv sv cs
  unfolding split_comments
  split_comments_sound rest {p} h = elim (Option-cases (cut b' ' rest)) [
    | inl e ↦
        let found : check_fields content had_cr pv rest [] ≡ ok p = ground arith in
        let (same, a) = check_fields_sound rest [] found in
        (rest, [], sym (append-nil rest), same, a)
    | inr ((sv, []), e) ↦ absurd (ground arith)
    | inr ((sv, c ∷ cs), e) ↦
        let found : check_fields content had_cr pv sv (c ∷ cs) ≡ ok p = ground arith in
        let (same, a) = check_fields_sound sv (c ∷ cs) found in
        (sv, c ∷ cs, (rw e at (cut-first b' ' rest)).0, same, a)
  ]

  split_comments_complete :
      (sv cs : Bytes)
      → Accepts had_cr pv sv cs
      → split_comments content had_cr pv (sv ++ comment_part cs) ≡ ok (fields content pv sv cs)
  unfolding split_comments
  split_comments_complete sv [] a = rw (append-nil sv) (
      ground
        (arith, cut-none b' ' sv (valid-no_space sv a.software_ok), check_fields_complete sv [] a))
  split_comments_complete sv (c ∷ cs) a = ground (
    arith,
    cut-append b' ' sv (c ∷ cs) (valid-no_space sv a.software_ok),
    check_fields_complete sv (c ∷ cs) a,
  )

pub protocol_cases :
    (v : Bytes) → valid_protocol_version v ≡ true → (v ≡ codes "2.0") ⊎ (v ≡ codes "1.99")
protocol_cases v h = ground (arith, bytes_eq_iff v (codes "2.0"), bytes_eq_iff v (codes "1.99"))

protocol-no_dash : (v : Bytes) → valid_protocol_version v ≡ true → All (λ x. x ≢ b'-') v
protocol-no_dash v h = elim (protocol_cases v h) [
  | inl e ↦ subst (All (λ x. x ≢ b'-')) (sym e) (omega arith)
  | inr e ↦ subst (All (λ x. x ≢ b'-')) (sym e) (omega arith)
]

protocol-ne-nil : (v : Bytes) → valid_protocol_version v ≡ true → is_empty v ≡ false
unfolding bytes_eq
protocol-ne-nil [] h = cc
protocol-ne-nil (c ∷ v) h = refl

tail-ne-nil :
    (sv cs : Bytes) → valid_version_field sv ≡ true → is_empty (sv ++ comment_part cs) ≡ false
tail-ne-nil [] cs h = cc
tail-ne-nil (c ∷ sv) cs h = refl

module _ (content : Bytes) (had_cr : Bool) where
  split_versions_sound :
      (rest : Bytes) {p : Identification}
      → split_versions content had_cr rest ≡ ok p
      → (v : Bytes) × (sv : Bytes) × (cs : Bytes) × (rest ≡ v ++ b'-' ∷ (sv ++ comment_part cs))
        × (p ≡ fields content v sv cs)
        × Accepts had_cr v sv cs
  unfolding split_versions
  split_versions_sound rest {p} h = elim (Option-cases (cut b'-' rest)) [
    | inl e ↦ absurd (ground arith)
    | inr ((v, tail), e) ↦
        let found : split_comments content had_cr v tail ≡ ok p = ground arith in
        let (sv, cs, tail_is, same, a) = split_comments_sound content had_cr v tail found in
        let split = (rw e at (cut-first b'-' rest)).0 in
        (v, sv, cs, split ∙ ap (λ t. v ++ b'-' ∷ t) tail_is, same, a)
  ]

  split_versions_complete :
      (v sv cs : Bytes)
      → Accepts had_cr v sv cs
      → split_versions content had_cr (v ++ b'-' ∷ (sv ++ comment_part cs))
        ≡ ok (fields content v sv cs)
  unfolding split_versions
  split_versions_complete v sv cs a = ground (
    arith,
    cut-append b'-' v (sv ++ comment_part cs) (protocol-no_dash v a.protocol_ok),
    protocol-ne-nil v a.protocol_ok,
    tail-ne-nil sv cs a.software_ok,
    split_comments_complete content had_cr v sv cs a,
  )

-- `strip_cr` and the LF behind the content.
pub strip_cr-split :
    (content : Bytes) → (strip_cr content).0 ++ line_end (strip_cr content).1 ≡ content ++ lf ∷ []
unfolding strip_cr
strip_cr-split content = elim (Option-cases (split_last content)) [
  | inl e ↦ ground arith
  | inr ((front, last), e) ↦
      ground (arith, append_of_split_last content e, append_assoc front (cr ∷ []) (lf ∷ []))
]

pub parse_content_sound :
    (content : Bytes) {p : Identification}
    → parse_content (strip_cr content) ≡ ok p
    → (v : Bytes) × (sv : Bytes) × (cs : Bytes) × ((strip_cr content).0
        ≡ print_identification v sv cs)
      × (p ≡ fields (strip_cr content).0 v sv cs)
      × Accepts (strip_cr content).1 v sv cs
unfolding parse_content
parse_content_sound content {p} h =
    let raw = (strip_cr content).0 in
    let had_cr = (strip_cr content).1 in
    elim (Option-cases (strip_prefix ssh_prefix raw)) [
      | inl e ↦ absurd (ground arith)
      | inr (rest, e) ↦
          let found : split_versions raw had_cr rest ≡ ok p = ground arith in
          let (v, sv, cs, rest_is, same, a) = split_versions_sound raw had_cr rest found in
          (
            v,
            sv,
            cs,
            append_of_strip_prefix ssh_prefix raw e ∙ ap (λ t. ssh_prefix ++ t) rest_is,
            same,
            a,
          )
    ]

pub parse_content_complete :
    (had_cr : Bool) (v sv cs : Bytes)
    → Accepts had_cr v sv cs
    → parse_content (print_identification v sv cs, had_cr)
      ≡ ok (fields (print_identification v sv cs) v sv cs)
unfolding parse_content
parse_content_complete had_cr v sv cs a = ground (
  arith,
  strip_prefix-append ssh_prefix (v ++ b'-' ∷ (sv ++ comment_part cs)),
  split_versions_complete (print_identification v sv cs) had_cr v sv cs a,
)

all-append :
    (f : ℕ → Bool) (xs ys : Bytes) → all f xs ≡ true → all f ys ≡ true → all f (xs ++ ys) ≡ true
all-append f [] ys h k = k
all-append f (x ∷ xs) ys h k = ground (arith, all-append f xs ys)

software-comment : (sv : Bytes) → all software_byte sv ≡ true → all comment_byte sv ≡ true
software-comment [] h = refl
software-comment (c ∷ sv) h = ground (arith, software-comment sv)

comment_part-printable :
    (cs : Bytes) → valid_comments cs ≡ true → valid_comments (comment_part cs) ≡ true
comment_part-printable [] h = refl
comment_part-printable (c ∷ cs) h = h

-- A printed identification holds printable bytes alone, so it does not end in CR.
pub print-printable :
    (had_cr : Bool) (v sv cs : Bytes)
    → Accepts had_cr v sv cs
    → all comment_byte (print_identification v sv cs) ≡ true
print-printable had_cr v sv cs a =
    let tail =
      all-append comment_byte sv (comment_part cs)
        (software-comment sv (and_true (not (is_empty sv)) (all software_byte sv) a.software_ok).1)
        (comment_part-printable cs a.comments_ok) in
    elim (protocol_cases v a.protocol_ok) [ inl e ↦ rw e tail | inr e ↦ rw e tail ]

all-last : (f : ℕ → Bool) (xs : Bytes) (y : ℕ) → all f (xs ++ y ∷ []) ≡ true → f y ≡ true
all-last f [] y h = (and_true (f y) true h).0
all-last f (x ∷ xs) y h = ground (arith, all-last f xs y)

pub strip_cr-printable : (raw : Bytes) → all comment_byte raw ≡ true → strip_cr raw ≡ (raw, false)
unfolding strip_cr
strip_cr-printable raw h = elim (Option-cases (split_last raw)) [
  | inl e ↦ ground arith
  | inr ((front, last), e) ↦
      let shape = append_of_split_last raw e in
      let printable : comment_byte last ≡ true = all-last comment_byte front last (rw shape at h) in
      ground arith
]

pub strip_cr-append : (raw : Bytes) → strip_cr (raw ++ cr ∷ []) ≡ (raw, true)
unfolding strip_cr
strip_cr-append raw = rw (split_last-append raw cr, strip_cr)
