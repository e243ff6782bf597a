-- ===== src/NetTarget/Accepted.antt =====
-- What a web hostname that passes the checks looks like.
use reachrun.Prelude.{
  ℕ, Bool, true, false, not, ◌||◌, List, [], ◌∷◌, ◌++◌, ◌==◌, ==_iff, ==_refl, Bytes, All,
  trim_suffix, is_empty, split_last, append_of_split_last, ◌≡◌, refl, ap, ◌∙◌, inl, inr, Bool-cases,
  Option-cases, arith, ok, bind-eq-ok, check_all,
}
use reachrun.Dns.Hostname.{any_byte}
use reachrun.NetTarget.Address.{NetLibrary}
use reachrun.NetTarget.Hostname.{
  cons_head, split, label_byte, check_label, check_web_hostname, normalize_web_hostname,
}

-- The bytes of a web hostname.
abbrev pub IsWebText : Bytes → Type 0
IsWebText text = All (λ c. label_byte c || c == b'.' ≡ true) text

abbrev any_empty : List Bytes → Bool
any_empty [] = false
any_empty (l ∷ ls) = is_empty l || any_empty ls

abbrev tail : List Bytes → List Bytes
tail [] = []
tail (l ∷ ls) = ls

abbrev IsPlain : Bytes → Type 0
IsPlain l = any_byte (λ c. not (label_byte c)) l ≡ false

check_label-parts : (l : Bytes) → check_label l ≡ ok tt → (is_empty l ≡ false) × IsPlain l
unfolding check_label
check_label-parts l h = ground arith

check_labels-parts :
    (ls : List Bytes) → check_all check_label ls ≡ ok tt → (any_empty ls ≡ false) × All IsPlain ls
unfolding check_all
check_labels-parts [] h = (refl, tt)
check_labels-parts (l ∷ ls) h =
    let (u, label, labels) = bind-eq-ok (check_label l) _ h in
    let (filled, plain) = check_label-parts l label in
    let (rest_filled, rest_plain) = check_labels-parts ls labels in
    (rw (filled, rest_filled) refl, (plain, rest_plain))

cons_head-IsPlain :
    (x : ℕ) (ls : List Bytes)
    → All IsPlain (cons_head x ls)
    → (label_byte x ≡ true) × All IsPlain ls
cons_head-IsPlain x [] h = ground arith
cons_head-IsPlain x (l ∷ ls) h = ground arith

split-IsWebText : (text : Bytes) → All IsPlain (split b'.' text) → IsWebText text
unfolding split
split-IsWebText [] h = tt
split-IsWebText (x ∷ text) h = elim (Bool-cases (x == b'.')) [
  | inl dot ↦ let rest = split-IsWebText text (rw (dot) at h).1 in (ground (arith, dot), rest)
  | inr other ↦
      let (plain, labels) = cons_head-IsPlain x (split b'.' text) (rw (other) at h) in
      (rw plain refl, split-IsWebText text labels)
]

any_tail : (ls : List Bytes) → any_empty (tail ls) ≡ true → any_empty ls ≡ true
any_tail [] h = cc h
any_tail (l ∷ ls) h = ground (arith, h)

tail-cons_head :
    (x : ℕ) (ls : List Bytes)
    → any_empty (tail ls) ≡ true
    → any_empty (tail (cons_head x ls)) ≡ true
tail-cons_head x [] h = cc h
tail-cons_head x (l ∷ ls) h = h

-- A byte behind the last separator makes an empty label.
split-snoc : (b : ℕ) (xs : Bytes) → any_empty (tail (split b (xs ++ b ∷ []))) ≡ true
unfolding split
split-snoc b [] = rw (==_refl b) refl
split-snoc b (x ∷ xs) = elim (Bool-cases (x == b)) [
  | inl same ↦ rw same (any_tail (split b (xs ++ b ∷ [])) (split-snoc b xs))
  | inr other ↦ rw other (tail-cons_head x (split b (xs ++ b ∷ [])) (split-snoc b xs))
]

trim_suffix-kept :
    (b : ℕ) (text : Bytes) → any_empty (split b text) ≡ false → trim_suffix b text ≡ text
unfolding trim_suffix
trim_suffix-kept b text h = elim (Option-cases (split_last text)) [
  | inl e ↦ rw (trim_suffix, e) refl
  | inr ((front, last), e) ↦ elim (Bool-cases (last == b)) [
    | inr other ↦ rw (trim_suffix, e, other) refl
    | inl same ↦
        let ends =
          append_of_split_last text e ∙ ap (λ c. front ++ c ∷ []) ((==_iff last b).0 same) in
        cc (
          h,
          ap (λ t. any_empty (split b t)) ends,
          any_tail (split b (front ++ b ∷ [])) (split-snoc b front),
        )
  ]
]

module _ (lib : NetLibrary) where
  check_web_hostname-labels :
      (text : Bytes)
      → check_web_hostname lib text ≡ ok tt
      → check_all check_label (split b'.' text) ≡ ok tt
  unfolding check_web_hostname
  check_web_hostname-labels text h = ground arith

  pub check_web_hostname-IsWebText :
      (text : Bytes) → check_web_hostname lib text ≡ ok tt → IsWebText text
  check_web_hostname-IsWebText text h =
      split-IsWebText text
        (check_labels-parts (split b'.' text) (check_web_hostname-labels text h)).1

  -- A hostname that passes the checks of `NormalizeWebHostname`, and that `ToLower` and `TrimSpace`
  -- leave as it is, is its own normal form, and is accepted.
  pub normalize_web_hostname-kept :
      (text : Bytes)
      → check_web_hostname lib text ≡ ok tt
      → lib.to_lower text ≡ text
      → lib.trim_space text ≡ text
      → normalize_web_hostname lib text ≡ (text, ok tt)
  unfolding normalize_web_hostname
  normalize_web_hostname-kept text h lower trim =
      let kept =
        trim_suffix-kept b'.' text
          (check_labels-parts (split b'.' text) (check_web_hostname-labels text h)).0 in
      rw (normalize_web_hostname, trim, lower, kept, h) refl
