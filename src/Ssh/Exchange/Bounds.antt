-- ===== src/Ssh/Exchange/Bounds.antt =====
-- writeAll and exchangeIdentification return for every connection that keeps io.Writer's contract,
-- within the limits on lines, bytes and reads.
use reachrun.Prelude.{
  take, length-take, ◌++◌, [], ◌∷◌, ap, sym, ◌↔◌, ◌≢◌, ℕ, zero, suc, ◌+◌, ◌-◌, ◌≤◌, ◌<◌, Bool, true,
  false, Option, none, some, ◌≡◌, inl, inr, refl, ◌∙◌, arith, ltb, leb, ◌==◌, Bytes, length, drop,
  length-drop, ok, err, Result, Bool-cases, Option-cases,
}
use reachrun.Ssh.Identification.{
  Identification, Malformed, max_identification_bytes, parse_identification_line,
}
use reachrun.Ssh.Identification.Exact.{IsIdentificationLine, parse_identification_line_iff}
use reachrun.Ssh.Exchange.{
  max_preamble_lines, max_preamble_bytes, ExchangeError, preamble_limit, line_limit, short_write,
  foreign, Conn, Written, write_step, write_loop, write_all, starts_ssh, Line, Exchange,
  no_identification, identified, read_failed, exchange_step, exchange_loop, Session, session_of,
  client_line, after_write, exchange_identification,
}
use reachrun.Ssh.Exchange.Reading.{Delivers, IsRead, read_server_line-IsRead}

-- io.Writer: a call writes no more than it was given.
pub record IsWriter (c : Conn) : Type 0 where
  pub count_fits : (k : ℕ) (text : Bytes) → (c.write k text).count ≤ length text

-- A writer that has taken the first `written` bytes of the text, and is done or has an error.
record IsProgress (text : Bytes) (w : Written) : Type 0 where
  fits : w.written ≤ length text
  taken_is : w.taken ≡ take w.written text
  all_written : w.error ≡ none → w.written ≡ length text

take-nil : (n : ℕ) → take {A = ℕ} n [] ≡ []
take-nil zero = refl
take-nil (suc n) = refl

take-drop : (n m : ℕ) (text : Bytes) → take n text ++ take m (drop n text) ≡ take (n + m) text
take-drop zero m text = ground arith
take-drop (suc n) m [] = take-nil m ∙ sym (take-nil (suc n + m))
take-drop (suc n) m (x ∷ text) =
    let sum : suc (n + m) ≡ suc n + m = omega arith in
    ap (λ t. x ∷ t) (take-drop n m text) ∙ ap (λ k. take k (x ∷ text)) sum

write_loop-IsProgress :
    (f : ℕ) (c : Conn) (text : Bytes) (k written : ℕ) (taken : Bytes)
    → IsWriter c
    → written ≤ length text
    → taken ≡ take written text
    → length text < f + written
    → (w : Written) × (write_loop f c text k written taken ≡ some w) × IsProgress text w
unfolding write_loop write_step
write_loop-IsProgress zero c text k written taken h fits same fuel = absurd (omega arith)
write_loop-IsProgress (suc f) c text k written taken h fits same fuel =
    let given = drop written text in
    let r = c.write k given in
    let room = h.count_fits k given in
    let left = length-drop written text in
    let now : taken ++ take r.count given ≡ take (written + r.count) text =
      ap (λ t. t ++ take r.count given) same ∙ take-drop written r.count text in
    elim (Bool-cases (ltb written (length text))) [
      | inr e ↦ (
        record { written = written; taken = taken; error = none },
        ground arith,
        record { fits = fits; taken_is = same; all_written = λ _. ground arith },
      )
      | inl e ↦ elim (Option-cases r.error) [
        | inr (x, b) ↦ (
          record {
            written = written + r.count;
            taken = taken ++ take r.count given;
            error = some (foreign x);
          },
          ground arith,
          record { fits = ground arith; taken_is = now; all_written = λ h. cc h },
        )
        | inl b ↦ elim (Bool-cases (r.count == 0)) [
          | inl z ↦ (
            record {
              written = written + r.count;
              taken = taken ++ take r.count given;
              error = some short_write;
            },
            ground arith,
            record { fits = ground arith; taken_is = now; all_written = λ h. cc h },
          )
          | inr z ↦
              let (w, found, is) =
                write_loop-IsProgress f c text (k + 1) (written + r.count)
                  (taken ++ take r.count given) h (ground arith) now (ground arith) in
              (w, ground arith, is)
        ]
      ]
    ]

take-whole : (text : Bytes) → take (length text) text ≡ text
take-whole [] = refl
take-whole (x ∷ text) = ap (λ t. x ∷ t) (take-whole text)

-- The counter is full exactly where the whole text was taken.
written-all :
    (text : Bytes) (w : Written) → IsProgress text w → (w.written ≡ length text) ↔ (w.taken ≡ text)
written-all text w is = (
  λ full. is.taken_is ∙ ap (λ n. take n text) full ∙ take-whole text,
  λ all.
      let whole = ap length (sym is.taken_is ∙ all) in
      omega (arith, length-take w.written text, whole, is.fits),
)

-- `writeAll`: the connection has taken the first `written` bytes of the text; with no error, all of it.
pub record IsWritten (text : Bytes) (w : Written) : Type 0 where
  pub fits : w.written ≤ length text
  pub taken_is : w.taken ≡ take w.written text
  pub full_iff : (w.written ≡ length text) ↔ (w.taken ≡ text)
  pub all_taken : w.error ≡ none → w.taken ≡ text

-- `writeAll` ends. The connection has then taken the first `written` bytes of the text, and without an
-- error it has taken the whole text, each byte once and in order.
pub write_all-IsWritten :
    (c : Conn) (text : Bytes)
    → IsWriter c
    → (w : Written) × (write_all c text ≡ some w) × IsWritten text w
unfolding write_all
write_all-IsWritten c text h =
    let (w, found, is) =
      write_loop-IsProgress (length text + 1) c text 0 0 [] h (omega arith) refl (omega arith) in
    let full = written-all text w is in
    (
      w,
      found,
      record {
        fits = is.fits;
        taken_is = is.taken_is;
        full_iff = full;
        all_taken = λ e. full.0 (is.all_written e);
      },
    )

-- The line behind a successful exchange: read whole, right behind at most `max_preamble_bytes` of
-- preamble, and nothing after it.
pub record IsIdentified (c : Conn) (e : Exchange) : Type 0 where
  pub start : ℕ
  pub line : Bytes
  pub preamble_fits : start ≤ max_preamble_bytes
  pub delivered : Delivers c start line
  pub nothing_behind : e.reads ≡ start + length line
  pub is_identification :
      IsIdentificationLine line (record e.parsed { preamble_lines = 0; client_line_sent = false })

pub record IsExchange (c : Conn) (sent : Bool) (e : Exchange) : Type 0 where
  pub lines : e.parsed.preamble_lines ≤ max_preamble_lines
  pub reads : e.reads ≤ max_preamble_bytes + max_identification_bytes + 1
  pub sent_is : e.parsed.client_line_sent ≡ sent
  pub identified : e.error ≡ none → IsIdentified c e

module _ (c : Conn) (sent : Bool) where
  abbrev Returns : Option Exchange → Type 0
  Returns r = (e : Exchange) × (r ≡ some e) × IsExchange c sent e

  read_failed-IsExchange :
      (lines : ℕ) (l : Line) (e : ExchangeError)
      → lines ≤ max_preamble_lines
      → l.next_read ≤ max_preamble_bytes + max_identification_bytes + 1
      → IsExchange c sent (read_failed lines sent l e)
  unfolding read_failed
  read_failed-IsExchange lines l line_limit h k = elim (Bool-cases (starts_ssh l.line)) [
    | inl b ↦ rw b (record { lines = h; reads = k; sent_is = refl; identified = λ e. cc })
    | inr b ↦ rw b (record { lines = h; reads = k; sent_is = refl; identified = λ e. cc })
  ]
  read_failed-IsExchange lines l _ h k = record {
    lines = h;
    reads = k;
    sent_is = refl;
    identified = λ e. cc;
  }

  identified-IsExchange :
      (lines : ℕ) (r : Result Malformed Identification) (start : ℕ) (line : Bytes)
      → parse_identification_line line ≡ r
      → lines ≤ max_preamble_lines
      → start ≤ max_preamble_bytes
      → length line ≤ max_identification_bytes
      → Delivers c start line
      → IsExchange c sent (identified lines sent r (start + length line))
  unfolding identified
  identified-IsExchange lines (ok p) start line e h k fits d =
      let i = (parse_identification_line_iff line p).0 e in
      record {
        lines = h;
        reads = omega arith;
        sent_is = refl;
        identified = λ _. record {
          start = start;
          line = line;
          preamble_fits = k;
          delivered = d;
          nothing_behind = refl;
          is_identification = record {
            had_cr = i.had_cr;
            line_is = i.line_is;
            raw_is = i.raw_is;
            fits = i.fits;
            protocol_ok = i.protocol_ok;
            crlf = i.crlf;
            software_ok = i.software_ok;
            comments_ok = i.comments_ok;
            no_preamble = refl;
            not_sent = refl;
          };
        };
      }
  identified-IsExchange lines (err why) start line e h k fits d = record {
    lines = h;
    reads = omega arith;
    sent_is = refl;
    identified = λ e. cc;
  }

  exchange_step-IsExchange :
      (l : Line) (lines bytes : ℕ) (next : ℕ → ℕ → ℕ → Option Exchange)
      → IsRead c (max_preamble_bytes - bytes) bytes l
      → lines ≤ max_preamble_lines
      → bytes ≤ max_preamble_bytes
      → (lines < max_preamble_lines
          → (n : ℕ) → bytes + n ≤ max_preamble_bytes
          → Returns (next (lines + 1) (bytes + n) (bytes + n)))
      → Returns (exchange_step l sent lines bytes next)
  unfolding exchange_step
  exchange_step-IsExchange l lines bytes next r h k rest = elim (Option-cases l.error) [
    | inr (e, b) ↦
        (_, ground arith, read_failed-IsExchange lines l e h (omega (arith, r.size, r.reads)))
    | inl b ↦
        let (whole, at) = r.completed b in
        elim (Bool-cases (starts_ssh l.line)) [
          | inl ssh ↦
              let is =
                identified-IsExchange lines (parse_identification_line l.line) bytes l.line refl h k
                  (whole.ssh_fits ssh) r.delivered in
              (_, ground arith, is)
          | inr other ↦
              let room = whole.other_fits other in
              elim (Bool-cases (leb max_preamble_lines lines)) [
                | inl full ↦ (
                  record {
                    parsed = record no_identification {
                      preamble_lines = lines;
                      client_line_sent = sent;
                    };
                    error = some preamble_limit;
                    reads = l.next_read;
                  },
                  ground arith,
                  record {
                    lines = h;
                    reads = omega (arith, r.size, r.reads);
                    sent_is = refl;
                    identified = λ e. cc;
                  },
                )
                | inr more ↦
                    let (e, found, is) = rest (ground arith) (length l.line) (omega arith) in
                    (e, ground arith, is)
              ]
        ]
  ]

  exchange_loop-IsExchange :
      (f lines bytes : ℕ)
      → lines ≤ max_preamble_lines
      → bytes ≤ max_preamble_bytes
      → max_preamble_lines < f + lines
      → Returns (exchange_loop f c sent lines bytes bytes)
  unfolding exchange_loop
  exchange_loop-IsExchange zero lines bytes h k fuel = absurd (omega arith)
  exchange_loop-IsExchange (suc f) lines bytes h k fuel =
      let (l, found, r) = read_server_line-IsRead c (max_preamble_bytes - bytes) bytes in
      let (e, gives, is) =
        exchange_step-IsExchange l lines bytes (exchange_loop f c sent) r h k λ more n fits.
          exchange_loop-IsExchange f (lines + 1) (bytes + n) (omega arith) fits (omega arith) in
      (e, ground arith, is)

-- What is promised of a return behind a write.
abbrev Returned : Conn → Exchange → Type 0
Returned c e =
    IsExchange c e.parsed.client_line_sent e
    × (e.error ≡ none → e.parsed.client_line_sent ≡ true)
    × (e.parsed.client_line_sent ≡ false → e.reads ≡ 0)

-- What `exchangeIdentification` promises: of the bytes that the connection has taken, and of its return.
pub record Promises (c : Conn) (s : Session) : Type 0 where
  pub exchange : IsExchange c s.returned.parsed.client_line_sent s.returned
  pub count : ℕ
  pub taken_is : s.taken ≡ take count client_line
  pub sent_iff : (s.returned.parsed.client_line_sent ≡ true) ↔ (s.taken ≡ client_line)
  pub all_taken : s.returned.error ≡ none → s.taken ≡ client_line
  pub unread : s.taken ≢ client_line → s.returned.reads ≡ 0

after_write-Returned :
    (c : Conn) (w : Written)
    → IsWritten client_line w
    → (e : Exchange) × (after_write c w ≡ some e)
      × Returned c e
      × (e.parsed.client_line_sent ≡ (w.written == length client_line))
unfolding after_write
after_write-Returned c w written = elim (Option-cases w.error) [
  | inr (x, b) ↦ (
    record {
      parsed = record no_identification { client_line_sent = w.written == length client_line };
      error = some x;
      reads = 0;
    },
    ground arith,
    (
      record { lines = omega arith; reads = omega arith; sent_is = refl; identified = λ e. cc },
      λ e. cc,
      λ _. refl,
    ),
    refl,
  )
  | inl b ↦
      let all = written.full_iff.1 (written.all_taken b) in
      let (e, found, is) =
        exchange_loop-IsExchange c true (max_preamble_lines + 1) 0 0 (omega arith) (omega arith)
          (omega arith) in
      let sent : (w.written == length client_line) ≡ true = ground arith in
      (
        e,
        ground arith,
        (rw is.sent_is is, λ _. is.sent_is, λ k. absurd (ground arith)),
        is.sent_is ∙ sym sent,
      )
]

exchange_identification-after :
    (c : Conn) {w : Written} {e : Exchange}
    → write_all c client_line ≡ some w
    → after_write c w ≡ some e
    → exchange_identification c ≡ some (record { taken = w.taken; returned = e })
unfolding exchange_identification session_of
exchange_identification-after c h k = rw (exchange_identification, h, k) refl

-- For every connection whose `Write` keeps io.Writer's contract, `exchangeIdentification` returns.
-- It counts at most 16 preamble lines and makes at most 4,352 reads. What the connection has taken is
-- the front of the client line, and the whole of it exactly where `clientLineSent` is set. With a nil
-- error it has taken the whole line, and the identification is that of one line that was read right
-- behind at most 4,096 bytes, with no byte read after it. Where it has not taken the whole line,
-- nothing was read.
pub exchange_identification-IsExchange :
    (c : Conn) → IsWriter c → (s : Session) × (exchange_identification c ≡ some s) × Promises c s
exchange_identification-IsExchange c h =
    let (w, wrote, written) = write_all-IsWritten c client_line h in
    let (e, found, (is, full, unread), flag) = after_write-Returned c w written in
    let all = written.full_iff in
    let flag_iff : (e.parsed.client_line_sent ≡ true) ↔ (w.written ≡ length client_line) =
      ground (arith, flag) in
    (
      record { taken = w.taken; returned = e },
      exchange_identification-after c wrote found,
      record {
        exchange = is;
        count = w.written;
        taken_is = written.taken_is;
        sent_iff = (λ b. all.0 (flag_iff.0 b), λ t. flag_iff.1 (all.1 t));
        all_taken = λ n. all.0 (flag_iff.0 (full n));
        unread = λ part. elim (Bool-cases e.parsed.client_line_sent) [
          | inl set ↦ absurd (part (all.0 (flag_iff.0 set)))
          | inr unset ↦ unread unset
        ];
      },
    )
