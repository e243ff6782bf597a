-- ===== src/Ssh/Exchange.antt =====
-- exchangeIdentification, writeAll and readServerLine of
-- internal/sshobservation/identification.go, over a connection that answers each call as it likes.
pub mod Reading
pub mod Bounds
use reachrun.Prelude.{
  ℕ, zero, suc, ◌+◌, ◌-◌, Bool, true, false, not, ◌&&◌, ◌||◌, Option, none, some, List, [], ◌∷◌,
  ◌++◌, ltb, leb, ◌==◌, if◌then◌else◌, max, Bytes, codes, has_prefix, length, take, drop, ok, err,
  Result,
}
use reachrun.Ssh.Identification.{
  Identification, Malformed, version_line_exceeded, max_identification_bytes, ssh_prefix, cr, lf,
  parse_identification_line,
}

abbrev pub max_preamble_lines : ℕ
max_preamble_lines = 16

abbrev pub max_preamble_bytes : ℕ
max_preamble_bytes = 4096

-- The errors that the exchange returns. `foreign e` is an error value of the connection.
pub data ExchangeError : Type 0 where
  invalid_identification : Malformed → ExchangeError
  preamble_limit line_limit short_write no_progress : ExchangeError
  foreign : ℕ → ExchangeError

-- What one call of `Write` returns, and what one call of `Read` with a buffer of one byte returns:
-- the byte is there when `n > 0`.
pub record WriteResult : Type 0 where
  pub count : ℕ
  pub error : Option ℕ

pub record ReadResult : Type 0 where
  pub byte : Option ℕ
  pub error : Option ℕ

-- `net.Conn`, a parameter of the model: the answer to the k-th call of each method.
pub record Conn : Type 0 where
  pub write : ℕ → Bytes → WriteResult
  pub read : ℕ → ReadResult

-- `written` and the error, and the bytes that the connection has taken: of the text of a call, the
-- first `n`, as io.Writer says.
pub record Written : Type 0 where
  pub written : ℕ
  pub taken : Bytes
  pub error : Option ExchangeError

-- The body of `writeAll` behind a call of `Write` with `given` that answered `r`.
write_step : WriteResult → Bytes → ℕ → Bytes → (ℕ → Bytes → Option Written) → Option Written
write_step r given written taken next =
    let total = written + r.count in
    let taken_now = taken ++ take r.count given in
    elim r.error [
      | some e ↦ some (record { written = total; taken = taken_now; error = some (foreign e) })
      | none ↦ elim (r.count == 0) [
        | true ↦ some (record { written = total; taken = taken_now; error = some short_write })
        | false ↦ next total taken_now
      ]
    ]

-- `none` means that the fuel ran out.
write_loop : ℕ → Conn → Bytes → ℕ → ℕ → Bytes → Option Written
write_loop zero c text k written taken = none
write_loop (suc f) c text k written taken = elim (ltb written (length text)) [
  | true ↦
      let given = drop written text in
      write_step (c.write k given) given written taken (write_loop f c text (k + 1))
  | false ↦ some (record { written = written; taken = taken; error = none })
]

unfoldable pub write_all : Conn → Bytes → Option Written
unfolding write_loop write_step
write_all c text = write_loop (length text + 1) c text 0 0 []

abbrev pub starts_ssh : Bytes → Bool
starts_ssh line = has_prefix ssh_prefix line

abbrev pub could_start_ssh : Bytes → Bool
could_start_ssh line = ltb (length line) (length ssh_prefix) && has_prefix line ssh_prefix

-- What the tests behind `append(line, one[0])` do: return the line, return `errLineLimit`, or go on.
pub data Verdict : Type 0 where
  complete over_limit more : Verdict

pub verdict : Bytes → ℕ → ℕ → Verdict
verdict line one remaining =
    if starts_ssh line
    then (if one == lf
        then complete
        else if leb max_identification_bytes (length line)
        then over_limit
        else more)
    else if could_start_ssh line
    then more
    else if ltb remaining (length line)
    then over_limit
    else if one == lf
    then complete
    else if leb remaining (length line)
    then over_limit
    else more

-- The line read, the error beside it, and the number of the next call of `Read`.
pub record Line : Type 0 where
  pub line : Bytes
  pub error : Option ExchangeError
  pub next_read : ℕ

-- One round: `r` is the answer of the read numbered `k`, and `next` the following rounds.
read_step : ReadResult → ℕ → Bytes → ℕ → (Bytes → Option Line) → Option Line
unfolding verdict
read_step r remaining line k next = elim r.byte [
  | none ↦ some (record {
    line = line;
    error = elim r.error [ none ↦ some no_progress | some e ↦ some (foreign e) ];
    next_read = k + 1;
  })
  | some one ↦
      let line' = line ++ one ∷ [] in
      elim (verdict line' one remaining) [
        | complete ↦ some (record { line = line'; error = none; next_read = k + 1 })
        | over_limit ↦ some (record { line = line'; error = some line_limit; next_read = k + 1 })
        | more ↦ elim r.error [
          | none ↦ next line'
          | some e ↦ some (record { line = line'; error = some (foreign e); next_read = k + 1 })
        ]
      ]
]

read_loop : ℕ → Conn → ℕ → ℕ → Bytes → Option Line
read_loop zero c remaining k line = none
read_loop (suc f) c remaining k line =
    read_step (c.read k) remaining line k (read_loop f c remaining (k + 1))

-- `readServerLine(conn, remaining)`, whose first read is numbered `k`.
unfoldable pub read_server_line : Conn → ℕ → ℕ → Option Line
unfolding read_loop read_step
read_server_line c remaining k =
    read_loop (max max_identification_bytes remaining + 1) c remaining k []

-- What `exchangeIdentification` returns, and the number of reads that it made.
pub record Exchange : Type 0 where
  pub parsed : Identification
  pub error : Option ExchangeError
  pub reads : ℕ

abbrev pub no_identification : Identification
no_identification = record {
  raw = [];
  protocol_version = [];
  software_version = [];
  comments = [];
  preamble_lines = 0;
  client_line_sent = false;
}

abbrev unidentified : ℕ → Bool → ExchangeError → ℕ → Exchange
unidentified lines sent e reads = record {
  parsed = record no_identification { preamble_lines = lines; client_line_sent = sent };
  error = some e;
  reads = reads;
}

-- `parsed, err := parseIdentificationLine(line)`, and the two fields set behind it.
identified : ℕ → Bool → Result Malformed Identification → ℕ → Exchange
identified lines sent (ok p) reads = record {
  parsed = record p { preamble_lines = lines; client_line_sent = sent };
  error = none;
  reads = reads;
}
identified lines sent (err why) reads = unidentified lines sent (invalid_identification why) reads

read_failed : ℕ → Bool → Line → ExchangeError → Exchange
read_failed lines sent l line_limit =
    if starts_ssh l.line
    then unidentified lines sent (invalid_identification version_line_exceeded) l.next_read
    else unidentified lines sent preamble_limit l.next_read
read_failed lines sent l e = unidentified lines sent e l.next_read

-- One round of the loop behind `readServerLine`. `next` takes the new counts and read number.
unfoldable pub exchange_step : Line → Bool → ℕ → ℕ → (ℕ → ℕ → ℕ → Option Exchange) → Option Exchange
unfolding identified read_failed
exchange_step l sent lines bytes next = elim l.error [
  | some e ↦ some (read_failed lines sent l e)
  | none ↦ elim (starts_ssh l.line) [
    | true ↦ some (identified lines sent (parse_identification_line l.line) l.next_read)
    | false ↦
        elim (leb max_preamble_lines lines || ltb max_preamble_bytes (bytes + length l.line)) [
          | true ↦ some (unidentified lines sent preamble_limit l.next_read)
          | false ↦ next (lines + 1) (bytes + length l.line) l.next_read
        ]
  ]
]

unfoldable pub exchange_loop : ℕ → Conn → Bool → ℕ → ℕ → ℕ → Option Exchange
exchange_loop zero c sent lines bytes k = none
exchange_loop (suc f) c sent lines bytes k =
    elim (read_server_line c (max_preamble_bytes - bytes) k) [
      | none ↦ none
      | some l ↦ exchange_step l sent lines bytes (exchange_loop f c sent)
    ]

-- `ClientIdentification + "\r\n"`.
abbrev pub client_line : Bytes
client_line = codes "SSH-2.0-ReachRun_Phase0\r\n"

unfoldable pub after_write : Conn → Written → Option Exchange
after_write c w =
    let sent = w.written == length client_line in
    elim w.error [
      | some e ↦ some (unidentified 0 sent e 0)
      | none ↦ exchange_loop (max_preamble_lines + 1) c sent 0 0 0
    ]

-- What is returned, beside the bytes that the connection has taken.
pub record Session : Type 0 where
  pub taken : Bytes
  pub returned : Exchange

session_of : Bytes → Option Exchange → Option Session
session_of taken none = none
session_of taken (some e) = some (record { taken = taken; returned = e })

unfoldable pub exchange_identification : Conn → Option Session
unfolding session_of
exchange_identification c = elim (write_all c client_line) [
  | none ↦ none
  | some w ↦ session_of w.taken (after_write c w)
]
