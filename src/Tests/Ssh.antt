-- ===== src/Tests/Ssh.antt =====
-- internal/sshobservation on a server that sends one preamble line and its identification.
use reachrun.Prelude.{
  ℕ, zero, suc, true, false, Option, none, some, [], ◌∷◌, ◌≡◌, ◌↔◌, refl, arith, Bytes, codes,
  length, has_prefix, split_last, cut, bytes_eq, ok,
}
use reachrun.Ssh.Identification.{Identification, parse_identification_line, strip_cr}
use reachrun.Ssh.Identification.Exact.{IsIdentificationLine, parse_identification_line_iff}
use reachrun.Ssh.Exchange.{
  Conn, Written, Line, Session, client_line, write_all, read_server_line, exchange_identification,
  exchange_step, exchange_loop, after_write,
}
use reachrun.Ssh.Exchange.Reading.{IsRead, read_server_line-IsRead}
use reachrun.Ssh.Exchange.Bounds.{
  IsWriter, IsWritten, write_all-IsWritten, Promises, exchange_identification-IsExchange,
}

abbrev byte_at : Bytes → ℕ → Option ℕ
byte_at [] k = none
byte_at (x ∷ xs) zero = some x
byte_at (x ∷ xs) (suc k) = byte_at xs k

abbrev sent : Bytes
sent = codes "hello\nSSH-2.0-Test\r\n"

abbrev server : Conn
server = record {
  write = λ _ text. record { count = length text; error = none };
  read = λ k. record { byte = byte_at sent k; error = none };
}

server-IsWriter : IsWriter server
server-IsWriter = record { count_fits = λ k text. omega arith }

abbrev identification : Identification
identification = record {
  raw = codes "SSH-2.0-Test";
  protocol_version = codes "2.0";
  software_version = codes "Test";
  comments = [];
  preamble_lines = 0;
  client_line_sent = false;
}

exchange-server :
    exchange_identification server
    ≡ some (record {
      taken = client_line;
      returned = record {
        parsed = record identification { preamble_lines = 1; client_line_sent = true };
        error = none;
        reads = 20;
      };
    })
unfolding exchange_identification after_write exchange_loop exchange_step write_all read_server_line
    has_prefix parse_identification_line split_last strip_cr cut bytes_eq
exchange-server = refl

write_all-IsWritten_example :
    (w : Written) × (write_all server (codes "abc") ≡ some w) × IsWritten (codes "abc") w
write_all-IsWritten_example = write_all-IsWritten server (codes "abc") server-IsWriter

read_server_line-IsRead_example :
    (l : Line) × (read_server_line server 4096 0 ≡ some l) × IsRead server 4096 0 l
read_server_line-IsRead_example = read_server_line-IsRead server 4096 0

exchange_identification-IsExchange_example :
    (s : Session) × (exchange_identification server ≡ some s) × Promises server s
exchange_identification-IsExchange_example =
    exchange_identification-IsExchange server server-IsWriter

parse_identification_line_iff_example :
    (parse_identification_line (codes "SSH-2.0-Test\r\n") ≡ ok identification)
    ↔ IsIdentificationLine (codes "SSH-2.0-Test\r\n") identification
parse_identification_line_iff_example =
    parse_identification_line_iff (codes "SSH-2.0-Test\r\n") identification
