-- ===== src/Ssh/Identification/Exact.antt =====
-- parseIdentificationLine accepts exactly the identification lines, and returns their fields.
use reachrun.Prelude.{
  ◌≤◌, Bool, true, false, [], ◌∷◌, ◌++◌, ◌≡◌, ◌↔◌, ◌⊎◌, inl, inr, refl, ap, sym, ◌∙◌, arith, Bytes,
  codes, bytes_eq, bytes_eq_iff, split_last, split_last-append, append_of_split_last, length, all,
  append-nil, Option-cases, ok, append_assoc,
}
use reachrun.Ssh.Identification.{
  Identification, max_identification_bytes, cr, lf, valid_protocol_version, valid_version_field,
  valid_comments, comment_byte, strip_cr, parse_content, parse_identification_line,
}
use reachrun.Ssh.Identification.Fields.{
  print_identification, line_end, Accepts, protocol_cases, parse_content_sound,
  parse_content_complete, print-printable, strip_cr-printable, strip_cr-append, strip_cr-split,
}

-- The line that `p` was read from, with its terminator.
pub record IsIdentificationLine (line : Bytes) (p : Identification) : Type 0 where
  pub had_cr : Bool
  pub line_is : line ≡ p.raw ++ line_end had_cr
  pub raw_is : p.raw ≡ print_identification p.protocol_version p.software_version p.comments
  pub fits : length line ≤ max_identification_bytes
  pub protocol_ok : (p.protocol_version ≡ codes "2.0") ⊎ (p.protocol_version ≡ codes "1.99")
  pub crlf : p.protocol_version ≡ codes "2.0" → had_cr ≡ true
  pub software_ok : valid_version_field p.software_version ≡ true
  pub comments_ok : valid_comments p.comments ≡ true
  pub no_preamble : p.preamble_lines ≡ 0
  pub not_sent : p.client_line_sent ≡ false

parse_sound :
    (line : Bytes) {p : Identification}
    → parse_identification_line line ≡ ok p
    → IsIdentificationLine line p
unfolding parse_identification_line
parse_sound line {p} h = elim (Option-cases (split_last line)) [
  | inl e ↦ absurd (ground arith)
  | inr ((content, last), e) ↦
      let is_lf : last ≡ lf = ground arith in
      let found : parse_content (strip_cr content) ≡ ok p = ground arith in
      let fits : length line ≤ max_identification_bytes = ground arith in
      let (v, sv, cs, raw_is, same, a) = parse_content_sound content found in
      let shape : line ≡ content ++ lf ∷ [] = rw (← is_lf) (append_of_split_last line e) in
      record {
        had_cr = (strip_cr content).1;
        line_is = rw same (shape ∙ sym (strip_cr-split content));
        raw_is = rw same raw_is;
        fits = fits;
        protocol_ok = rw same (protocol_cases v a.protocol_ok);
        crlf = λ e. a.crlf ((bytes_eq_iff v (codes "2.0")).1 (rw same at e));
        software_ok = rw same a.software_ok;
        comments_ok = rw same a.comments_ok;
        no_preamble = rw same refl;
        not_sent = rw same refl;
      }
]

-- A line that ends in LF, as `parse_identification_line` takes it apart.
parse-lf :
    (content : Bytes)
    → length (content ++ lf ∷ []) ≤ max_identification_bytes
    → parse_identification_line (content ++ lf ∷ []) ≡ parse_content (strip_cr content)
unfolding parse_identification_line
parse-lf content fits = ground (arith, split_last-append content lf)

protocol-valid :
    (v : Bytes) → (v ≡ codes "2.0") ⊎ (v ≡ codes "1.99") → valid_protocol_version v ≡ true
unfolding bytes_eq
protocol-valid v (inl e) = rw e refl
protocol-valid v (inr e) = rw e refl

-- The terminator that the parser strips, in front of its LF.
before_lf : Bool → Bytes
before_lf true = cr ∷ []
before_lf false = []

content_shape :
    (raw : Bytes) (had_cr : Bool) → raw ++ line_end had_cr ≡ (raw ++ before_lf had_cr) ++ lf ∷ []
unfolding before_lf
content_shape raw true = sym (append_assoc raw (cr ∷ []) (lf ∷ []))
content_shape raw false = rw (append-nil raw) refl

strip-before_lf :
    (raw : Bytes) (had_cr : Bool)
    → all comment_byte raw ≡ true
    → strip_cr (raw ++ before_lf had_cr) ≡ (raw, had_cr)
unfolding before_lf
strip-before_lf raw true h = strip_cr-append raw
strip-before_lf raw false h = rw (append-nil raw) (strip_cr-printable raw h)

module _ (line : Bytes) (p : Identification) (h : IsIdentificationLine line p) where
  accepts : Accepts h.had_cr p.protocol_version p.software_version p.comments
  accepts = record {
    protocol_ok = protocol-valid p.protocol_version h.protocol_ok;
    crlf = λ e. h.crlf ((bytes_eq_iff p.protocol_version (codes "2.0")).0 e);
    software_ok = h.software_ok;
    comments_ok = h.comments_ok;
  }

  printed-parses : parse_content (p.raw, h.had_cr) ≡ ok p
  printed-parses =
      let parsed =
        parse_content_complete h.had_cr p.protocol_version p.software_version p.comments accepts in
      ground (arith, parsed)

  parse_complete : parse_identification_line line ≡ ok p
  parse_complete =
      let printable : all comment_byte p.raw ≡ true =
        rw h.raw_is
          (print-printable h.had_cr p.protocol_version p.software_version p.comments accepts) in
      let shape = h.line_is ∙ content_shape p.raw h.had_cr in
      let fits : length ((p.raw ++ before_lf h.had_cr) ++ lf ∷ []) ≤ max_identification_bytes =
        rw (← shape) h.fits in
      rw shape (
        parse-lf (p.raw ++ before_lf h.had_cr) fits
        ∙ ap parse_content (strip-before_lf p.raw h.had_cr printable)
        ∙ printed-parses)

-- The parser accepts a line with the value `p` exactly when the line is the identification that
-- `p` describes, with its terminator, within the length limit and with every field valid.
pub parse_identification_line_iff :
    (line : Bytes) (p : Identification)
    → (parse_identification_line line ≡ ok p) ↔ IsIdentificationLine line p
parse_identification_line_iff line p = (parse_sound line, parse_complete line p)
