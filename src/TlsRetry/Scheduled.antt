-- ===== src/TlsRetry/Scheduled.antt =====
-- The targets that normalizeRequest of internal/tlsretrybatch lists, and those that are scheduled.
use reachrun.Prelude.{
  drop, ◌∙◌, ℕ, zero, suc, ◌+◌, ◌-◌, ◌≤◌, map, ap, true, false, Option, none, some, List, [], ◌∷◌,
  ◌++◌, take, length, Bytes, bytes_eq, bytes_eq_iff, contains, is_empty, ◌≡◌, refl, Bool-cases, inl,
  inr, Option-cases, All, All-append, arith,
}
use reachrun.NetTarget.Address.{NetLibrary, Addr, zone, unmap}
use reachrun.NetTarget.PublicIp.{PublicIp, is_allowed_public_ip, allow_public, normalize_public_ip}
use reachrun.TlsRetry.{TargetResult, not_started}
use reachrun.TlsRetry.Normalize.{
  Invalid, Input, Scan, scan_step, scan_targets, check_scan, normalize_request,
  request_target_limit, target_limit, bounded_targets, omitted_targets, initialize_targets,
}

-- No text stands twice.
abbrev pub NoRepeat : List Bytes → Type 0
NoRepeat [] = Unit
NoRepeat (t ∷ ts) = (contains t ts ≡ false) × NoRepeat ts

contains-append :
    (t x : Bytes) (ts : List Bytes)
    → contains t ts ≡ false
    → bytes_eq x t ≡ false
    → contains t (ts ++ x ∷ []) ≡ false
unfolding contains
contains-append t x [] h e = rw e refl
contains-append t x (u ∷ ts) h e = ground (arith, contains-append t x ts)

NoRepeat-append :
    (x : Bytes) (ts : List Bytes) → contains x ts ≡ false → NoRepeat ts → NoRepeat (ts ++ x ∷ [])
unfolding contains
NoRepeat-append x [] h n = (refl, tt)
NoRepeat-append x (t ∷ ts) h n =
    let other : bytes_eq x t ≡ false = ground (arith, h, bytes_eq_iff x t, bytes_eq_iff t x) in
    let rest : contains x ts ≡ false = ground (arith, h) in
    (contains-append t x ts n.0 other, NoRepeat-append x ts rest n.1)

contains-is_empty : (x : Bytes) (ts : List Bytes) → contains x ts ≡ true → is_empty ts ≡ false
unfolding contains
contains-is_empty x [] h = cc h
contains-is_empty x (t ∷ ts) h = refl

append-is_empty : (x : Bytes) (ts : List Bytes) → is_empty (ts ++ x ∷ []) ≡ false
append-is_empty x [] = refl
append-is_empty x (t ∷ ts) = refl

module _ (lib : NetLibrary) where
  -- The text that an address which may be connected to has.
  abbrev pub IsPublicText : Bytes → Type 0
  IsPublicText text = (a : Addr) × (is_allowed_public_ip a ≡ true) × (text ≡ lib.addr_text a)

  allow_public-text :
      (a : Addr) → (allow_public lib a).error ≡ none → IsPublicText (allow_public lib a).text
  unfolding allow_public
  allow_public-text a = elim (Bool-cases (is_allowed_public_ip a)) [
    | inl allowed ↦ rw (allow_public, allowed) (λ h. (a, allowed, refl))
    | inr refused ↦ rw (allow_public, refused) (λ h. cc h)
  ]

  normalize_public_ip-text :
      (value : Bytes)
      → (normalize_public_ip lib value).error ≡ none
      → IsPublicText (normalize_public_ip lib value).text
  unfolding normalize_public_ip
  normalize_public_ip-text value = elim (Option-cases (lib.parse_addr (lib.trim_space value))) [
    | inl e ↦ rw (normalize_public_ip, e) (λ h. cc h)
    | inr (a, e) ↦ elim (Bool-cases (is_empty (zone a))) [
      | inr zoned ↦ rw (normalize_public_ip, e, zoned) (λ h. cc h)
      | inl plain ↦ rw (normalize_public_ip, e, plain) (allow_public-text (unmap a))
    ]
  ]

  record IsScan (s : Scan) : Type 0 where
    no_repeat : NoRepeat s.targets
    public : s.first_error ≡ none → All IsPublicText s.targets

  first_error-none :
      (index : ℕ) (r : PublicIp) (s : Scan)
      → (scan_step index r s).first_error ≡ none
      → (s.first_error ≡ none) × (r.error ≡ none)
  unfolding scan_step
  first_error-none index r s h = ground (arith, h)

  scan_step-IsScan :
      (index : ℕ) (r : PublicIp) (s : Scan)
      → (r.error ≡ none → IsPublicText r.text)
      → IsScan s
      → IsScan (scan_step index r s)
  unfolding scan_step
  scan_step-IsScan index r s good is = elim (Bool-cases (contains r.text s.targets)) [
    | inl old ↦ record {
      no_repeat = rw (scan_step, old) is.no_repeat;
      public = λ h. rw (scan_step, old) (is.public (first_error-none index r s h).0);
    }
    | inr new ↦ record {
      no_repeat = rw (scan_step, new) (NoRepeat-append r.text s.targets new is.no_repeat);
      public = λ h.
          let (before, here) = first_error-none index r s h in
          rw (scan_step, new)
            (All-append IsPublicText s.targets (r.text ∷ []) (is.public before) (good here, tt));
    }
  ]

  scan_targets-IsScan :
      (index : ℕ) (values : List Bytes) (s : Scan)
      → IsScan s
      → IsScan (scan_targets lib index values s)
  unfolding scan_targets
  scan_targets-IsScan index [] s is = is
  scan_targets-IsScan index (value ∷ values) s is =
      scan_targets-IsScan (index + 1) values _ (
        scan_step-IsScan index (normalize_public_ip lib value) s (normalize_public_ip-text value)
          is)

  -- A text that is listed stays, and every step lists one.
  scan_step-is_empty :
      (index : ℕ) (r : PublicIp) (s : Scan) → is_empty (scan_step index r s).targets ≡ false
  unfolding scan_step
  scan_step-is_empty index r s = elim (Bool-cases (contains r.text s.targets)) [
    | inl old ↦ rw (scan_step, old) (contains-is_empty r.text s.targets old)
    | inr new ↦ rw (scan_step, new) (append-is_empty r.text s.targets)
  ]

  scan_targets-is_empty :
      (index : ℕ) (values : List Bytes) (s : Scan)
      → is_empty s.targets ≡ false
      → is_empty (scan_targets lib index values s).targets ≡ false
  unfolding scan_targets
  scan_targets-is_empty index [] s h = h
  scan_targets-is_empty index (value ∷ values) s h =
      scan_targets-is_empty (index + 1) values _
        (scan_step-is_empty index (normalize_public_ip lib value) s)

  scan-filled :
      (request : List Bytes)
      → is_empty request ≡ false
      → is_empty (scan_targets lib 0 request (record { targets = []; first_error = none })).targets
        ≡ false
  unfolding scan_targets
  scan-filled [] h = cc h
  scan-filled (value ∷ values) h = scan_targets-is_empty 1 values _ (
      scan_step-is_empty 0 (normalize_public_ip lib value)
        (record { targets = []; first_error = none }))

  check_scan-none :
      (request : List Bytes) (s : Scan)
      → check_scan request s ≡ none
      → (is_empty request ≡ false)
        × (s.first_error ≡ none)
        × (length s.targets ≤ request_target_limit)
  unfolding check_scan
  check_scan-none request s h = ground (arith, h)

  abbrev IsBatch : List Bytes → Type 0
  IsBatch targets =
      All IsPublicText targets
      × (is_empty targets ≡ false)
      × (length targets ≤ request_target_limit)

  -- What a request is normalized to: with no error it is a batch.
  pub IsNormalized : List Bytes → Option Invalid → Type 0
  IsNormalized targets none = NoRepeat targets × IsBatch targets
  IsNormalized targets (some _) = NoRepeat targets

  IsNormalized-by :
      (targets : List Bytes) (error : Option Invalid)
      → NoRepeat targets
      → (error ≡ none → IsBatch targets)
      → IsNormalized targets error
  unfolding IsNormalized
  IsNormalized-by targets none distinct batch = (distinct, batch refl)
  IsNormalized-by targets (some _) distinct batch = distinct

  -- normalizeRequest lists no target twice, also beside an error; where it returns no error, each
  -- target is the text of a public address, and there are at least one and at most sixteen of them.
  pub normalize_request-IsNormalized :
      (request : List Bytes)
      → IsNormalized (normalize_request lib request).0.targets (normalize_request lib request).1
  unfolding normalize_request
  normalize_request-IsNormalized request =
      let s = scan_targets lib 0 request (record { targets = []; first_error = none }) in
      let is =
        scan_targets-IsScan 0 request (record { targets = []; first_error = none })
          (record { no_repeat = tt; public = λ h. tt }) in
      IsNormalized-by s.targets (check_scan request s) is.no_repeat (λ h.
        let (filled, no_error, few) = check_scan-none request s h in
        (is.public no_error, scan-filled request filled, few))

take-append : (n : ℕ) (l : List Bytes) → take n l ++ drop n l ≡ l
take-append zero l = refl
take-append (suc n) [] = refl
take-append (suc n) (x ∷ l) = ap (λ r. x ∷ r) (take-append n l)

take-length :
    (n : ℕ) (l : List Bytes) → (length (take n l) ≤ n) × (length (drop n l) ≡ length l - n)
take-length zero l = omega arith
take-length (suc n) [] = omega arith
take-length (suc n) (x ∷ l) = ground (arith, take-length n l)

abbrev fresh : (Bytes → Bytes) → Bytes → TargetResult
fresh target_family value = record {
  dial_ip = value;
  family = target_family value;
  status = not_started;
  attempts = [];
  attempts_nil = false;
}

-- A target that no worker has touched.
abbrev pub IsFresh : (Bytes → Bytes) → TargetResult → Type 0
IsFresh target_family t =
    (t.family ≡ target_family t.dial_ip)
    × (t.status ≡ not_started)
    × (t.attempts ≡ [])
    × (t.attempts_nil ≡ false)

map-IsFresh :
    (target_family : Bytes → Bytes) (l : List Bytes)
    → All (IsFresh target_family) (map (fresh target_family) l)
      × (map (λ t. t.dial_ip) (map (fresh target_family) l) ≡ l)
      × (length (map (fresh target_family) l) ≡ length l)
map-IsFresh target_family [] = (tt, refl, refl)
map-IsFresh target_family (x ∷ l) =
    let (all, same, count) = map-IsFresh target_family l in
    (((refl, refl, refl, refl), all), ap (λ r. x ∷ r) same, ap suc count)

-- What is scheduled of the listed targets, and the others.
pub record IsSchedule (target_family : Bytes → Bytes) (listed : List Bytes) (omitted : ℕ)
    (scheduled : List TargetResult) : Type 0 where
  pub fresh : All (IsFresh target_family) scheduled
  pub few : length scheduled ≤ target_limit
  pub rest : List Bytes
  pub all_listed : map (λ t. t.dial_ip) scheduled ++ rest ≡ listed
  pub rest_omitted : length rest ≡ omitted

-- The targets that are scheduled are the first listed ones, at most four, in their order, each with
-- its family, not started and with an empty list of attempts; the others are as many as are counted as omitted.
pub initialize_targets-IsSchedule :
    (target_family : Bytes → Bytes) (input : Input)
    → IsSchedule target_family input.targets
        (omitted_targets input)
        (initialize_targets target_family input)
initialize_targets-IsSchedule target_family input =
    let (all, same, count) = map-IsFresh target_family (bounded_targets input) in
    let (few, others) = take-length target_limit input.targets in
    record {
      fresh = all;
      few = omega (arith, count, few);
      rest = drop target_limit input.targets;
      all_listed =
          ap (λ l. l ++ drop target_limit input.targets) same
          ∙ take-append target_limit input.targets;
      rest_omitted = others;
    }
