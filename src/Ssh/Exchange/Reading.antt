-- ===== src/Ssh/Exchange/Reading.antt =====
-- readServerLine returns for every connection, and what it returns.
use reachrun.Prelude.{
  ℕ, zero, suc, ◌+◌, ◌≤◌, ◌<◌, true, false, Option, none, some, [], ◌∷◌, ◌++◌, ◌≡◌, ◌≢◌, ◌⊎◌, inl,
  inr, refl, ap, subst, arith, max, Bytes, has_prefix, strip_prefix, append_of_strip_prefix, length,
  All, All-append, length-append, Bool-cases, Option-cases,
}
use reachrun.Ssh.Identification.{max_identification_bytes, ssh_prefix, lf}
use reachrun.Ssh.Exchange.{
  ExchangeError, line_limit, no_progress, foreign, Conn, starts_ssh, could_start_ssh, Verdict,
  complete, over_limit, more, verdict, Line, read_step, read_loop, read_server_line,
}

-- The reads numbered from `k` on give these bytes, one each.
abbrev pub Delivers : Conn → ℕ → Bytes → Type 0
Delivers c k [] = Unit
Delivers c k (x ∷ xs) = ((c.read k).byte ≡ some x) × Delivers c (k + 1) xs

Delivers-append :
    (c : Conn) (k j : ℕ) (xs : Bytes) (y : ℕ)
    → j ≡ k + length xs
    → Delivers c k xs
    → (c.read j).byte ≡ some y
    → Delivers c k (xs ++ y ∷ [])
Delivers-append c k j [] y e d h = (subst (λ n. (c.read n).byte ≡ some y) (omega arith) h, tt)
Delivers-append c k j (x ∷ xs) y e d h = (d.0, Delivers-append c (k + 1) j xs y (omega arith) d.1 h)

-- What `readServerLine` returns with a nil error: a line ended by its first LF, within the limit.
pub record IsComplete (remaining : ℕ) (line : Bytes) : Type 0 where
  pub body : Bytes
  pub line_is : line ≡ body ++ lf ∷ []
  pub no_lf : All (λ x. x ≢ lf) body
  pub ssh_fits : starts_ssh line ≡ true → length line ≤ max_identification_bytes
  pub other_fits : starts_ssh line ≡ false → length line ≤ remaining

-- What every return of `readServerLine` satisfies, where the reads are numbered from `k`. With an
-- error one more read may have been made, which gave no byte.
pub record IsRead (c : Conn) (remaining k : ℕ) (l : Line) : Type 0 where
  pub delivered : Delivers c k l.line
  pub size : length l.line ≤ max max_identification_bytes remaining
  pub reads : l.next_read ≤ k + length l.line + 1
  pub completed : l.error ≡ none → IsComplete remaining l.line × (l.next_read ≡ k + length l.line)

-- A line that the loop has read so far and goes on with.
record IsOpen (remaining : ℕ) (line : Bytes) : Type 0 where
  no_lf : All (λ x. x ≢ lf) line
  ssh_bound : starts_ssh line ≡ true → length line < max_identification_bytes
  other_bound : starts_ssh line ≡ false → could_start_ssh line ≡ false → length line < remaining

has_prefix-append :
    (p xs : Bytes) (y : ℕ)
    → has_prefix p (xs ++ y ∷ []) ≡ true
    → (has_prefix p xs ≡ true) ⊎ (length xs < length p)
unfolding has_prefix
has_prefix-append [] xs y h = inl refl
has_prefix-append (c ∷ p) [] y h = inr (omega arith)
has_prefix-append (c ∷ p) (x ∷ xs) y h = ground (arith, has_prefix-append p xs y)

All-left {κ} : (P : ℕ → Type κ) (xs ys : Bytes) → All P (xs ++ ys) → All P xs
All-left P [] ys h = tt
All-left P (x ∷ xs) ys h = (h.0, All-left P xs ys h.1)

could_start-no_lf : (line : Bytes) → could_start_ssh line ≡ true → All (λ x. x ≢ lf) line
unfolding has_prefix
could_start-no_lf line h = elim (Option-cases (strip_prefix line ssh_prefix)) [
  | inl e ↦ absurd (ground arith)
  | inr (rest, e) ↦
      let shape = append_of_strip_prefix line ssh_prefix e in
      All-left (λ x. x ≢ lf) line rest (subst (All (λ x. x ≢ lf)) shape (omega arith))
]

module _ (remaining : ℕ) (line : Bytes) (one : ℕ) (o : IsOpen remaining line) where
  verdict-more :
      verdict (line ++ one ∷ []) one remaining ≡ more → IsOpen remaining (line ++ one ∷ [])
  unfolding verdict
  verdict-more h = record {
    no_lf = elim (Bool-cases (could_start_ssh (line ++ one ∷ []))) [
      | inl e ↦ could_start-no_lf (line ++ one ∷ []) e
      | inr e ↦
          let not_lf : one ≢ lf = ground arith in
          All-append (λ x. x ≢ lf) line (one ∷ []) o.no_lf (not_lf, tt)
    ];
    ssh_bound = ground arith;
    other_bound = ground arith;
  }

  ssh-shorter : starts_ssh (line ++ one ∷ []) ≡ true → length line < max_identification_bytes
  ssh-shorter h = elim (has_prefix-append ssh_prefix line one h) [
    | inl e ↦ o.ssh_bound e
    | inr e ↦ omega arith
  ]

  verdict-complete :
      verdict (line ++ one ∷ []) one remaining ≡ complete → IsComplete remaining (line ++ one ∷ [])
  unfolding verdict
  verdict-complete h =
      let is_lf : one ≡ lf = ground arith in
      record {
        body = line;
        line_is = ap (λ x. line ++ x ∷ []) is_lf;
        no_lf = o.no_lf;
        ssh_fits = λ e. omega (arith, ssh-shorter e, length-append line (one ∷ []));
        other_fits = ground arith;
      }

  open-size : length line < max max_identification_bytes remaining
  open-size = elim (Bool-cases (starts_ssh line)) [
    | inl e ↦ omega (arith, o.ssh_bound e)
    | inr e ↦ elim (Bool-cases (could_start_ssh line)) [
      | inl could ↦ ground arith
      | inr other ↦ omega (arith, o.other_bound e other)
    ]
  ]

  verdict-size : length (line ++ one ∷ []) ≤ max max_identification_bytes remaining
  verdict-size = omega (arith, open-size, length-append line (one ∷ []))

Verdict-cases : (v : Verdict) → (v ≡ complete) ⊎ (v ≡ over_limit) ⊎ (v ≡ more)
Verdict-cases complete = inl refl
Verdict-cases over_limit = inr (inl refl)
Verdict-cases more = inr (inr refl)

-- One round from an open line, given what the rounds behind it do from a longer one.
module _ (c : Conn) (remaining start k : ℕ) (line : Bytes) where
  abbrev Returns : Option Line → Type 0
  Returns r = (l : Line) × (r ≡ some l) × IsRead c remaining start l

  module _ (at : k ≡ start + length line) (d : Delivers c start line)
      (o : IsOpen remaining line) where
    module _ (one : ℕ) (d' : Delivers c start (line ++ one ∷ [])) where
      failed-IsRead :
          (e : ExchangeError)
          → IsRead c remaining start
              (record { line = line ++ one ∷ []; error = some e; next_read = k + 1 })
      failed-IsRead e = record {
        delivered = d';
        size = verdict-size remaining line one o;
        reads = omega (arith, length-append line (one ∷ []));
        completed = λ h. absurd (ground arith);
      }

      complete-IsRead :
          verdict (line ++ one ∷ []) one remaining ≡ complete
          → IsRead c remaining start
              (record { line = line ++ one ∷ []; error = none; next_read = k + 1 })
      complete-IsRead v = record {
        delivered = d';
        size = verdict-size remaining line one o;
        reads = omega (arith, length-append line (one ∷ []));
        completed = λ _.
            (verdict-complete remaining line one o v, omega (arith, length-append line (one ∷ [])));
      }

    read_step-IsRead :
        (next : Bytes → Option Line)
        → ((one : ℕ)
            → Delivers c start (line ++ one ∷ [])
            → IsOpen remaining (line ++ one ∷ [])
            → Returns (next (line ++ one ∷ [])))
        → Returns (read_step (c.read k) remaining line k next)
    unfolding read_step
    read_step-IsRead next rest = elim (Option-cases (c.read k).byte) [
      | inl e ↦ (
        record {
          line = line;
          error = elim (c.read k).error [ none ↦ some no_progress | some e ↦ some (foreign e) ];
          next_read = k + 1;
        },
        ground arith,
        record {
          delivered = d;
          size = omega (arith, open-size remaining line 0 o);
          reads = omega arith;
          completed = λ h. absurd (ground arith);
        },
      )
      | inr (one, e) ↦
          let d' = Delivers-append c start k line one at d e in
          elim (Verdict-cases (verdict (line ++ one ∷ []) one remaining)) [
            | inl v ↦ (_, ground arith, complete-IsRead one d' v)
            | inr (inl v) ↦ (_, ground arith, failed-IsRead one d' line_limit)
            | inr (inr v) ↦ elim (Option-cases (c.read k).error) [
              | inr (err, b) ↦ (_, ground arith, failed-IsRead one d' (foreign err))
              | inl b ↦
                  let (l, found, is) = rest one d' (verdict-more remaining line one o v) in
                  (l, ground arith, is)
            ]
          ]
    ]

read_loop-IsRead :
    (f : ℕ) (c : Conn) (remaining start k : ℕ) (line : Bytes)
    → k ≡ start + length line
    → max max_identification_bytes remaining < f + length line
    → Delivers c start line
    → IsOpen remaining line
    → Returns c remaining start k line (read_loop f c remaining k line)
unfolding read_loop
read_loop-IsRead zero c remaining start k line at fuel d o =
    absurd (omega (arith, open-size remaining line 0 o))
read_loop-IsRead (suc f) c remaining start k line at fuel d o =
    read_step-IsRead c remaining start k line at d o (read_loop f c remaining (k + 1)) λ one d' o'.
      read_loop-IsRead f c remaining start (k + 1) (line ++ one ∷ [])
        (omega (arith, length-append line (one ∷ [])))
        (omega (arith, length-append line (one ∷ []))) d' o'

IsOpen-nil : (remaining : ℕ) → IsOpen remaining []
unfolding has_prefix
IsOpen-nil remaining = record {
  no_lf = tt;
  ssh_bound = ground arith;
  other_bound = λ h k. absurd (ground arith);
}

-- `readServerLine` returns, whatever the connection answers. What it returns was delivered byte by
-- byte from the first read on and is no longer than both limits allow. With a nil error it is one
-- line with its LF, within the limit that applies to it, and no byte behind it was read.
pub read_server_line-IsRead :
    (c : Conn) (remaining k : ℕ)
    → (l : Line) × (read_server_line c remaining k ≡ some l) × IsRead c remaining k l
unfolding read_server_line
read_server_line-IsRead c remaining k =
    read_loop-IsRead (max max_identification_bytes remaining + 1) c remaining k k [] (omega arith)
      (omega arith) tt (IsOpen-nil remaining)
