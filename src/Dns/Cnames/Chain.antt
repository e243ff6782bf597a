-- ===== src/Dns/Cnames/Chain.antt =====
-- The CNAME chains that a list of records describes, and the map that followCNAMEs makes of it.
use reachrun.Prelude.{
  ◌+◌, ◌≤◌, true, false, some, List, [], ◌∷◌, ◌≡◌, ◌≢◌, ◌⊎◌, inl, inr, refl, subst, arith, Bytes,
  bytes_eq, bytes_eq_iff, bytes_eq_refl, find, Bool-cases, Option-cases, length,
}
use reachrun.Dns.Types.{cname, query_type_eq_iff, Record}
use reachrun.Dns.Cnames.{Collected, collect_step, collect, nothing_collected}

-- A CNAME record for `n` with the target `t` is among the records.
abbrev pub HasCname : Bytes → Bytes → List Record → Type 0
HasCname n t [] = ⊥
HasCname n t (r ∷ rs) = ((r.type ≡ cname) × (r.name ≡ n) × (r.target ≡ t)) ⊎ HasCname n t rs

-- From one name to another along CNAME records.
pub data Chain (records : List Record) : Bytes → Bytes → Type 0 where
  here : {n : Bytes} → Chain records n n
  next : {n t e : Bytes} → HasCname n t records → Chain records t e → Chain records n e

-- Two CNAME records of one name agree.
abbrev pub Agree : List Record → Type 0
Agree records = (n s t : Bytes) → HasCname n s records → HasCname n t records → s ≡ t

-- No CNAME record leads on from the name.
abbrev pub Ends : List Record → Bytes → Type 0
Ends records n = (t : Bytes) → ¬ HasCname n t records

module _ (r : Record) (s : Collected) where
  step-kept : (n t : Bytes) → find n s.targets ≡ some t → find n (collect_step r s).targets ≡ some t
  unfolding collect_step find
  step-kept n t h = ground (arith, bytes_eq_iff r.name n, bytes_eq_refl n, bytes_eq_iff t r.target)

  step-from :
      (n t : Bytes)
      → find n (collect_step r s).targets ≡ some t
      → (find n s.targets ≡ some t) ⊎ HasCname n t (r ∷ [])
  unfolding collect_step find
  step-from n t h = ground (arith, bytes_eq_iff r.name n, query_type_eq_iff r.type cname)

  step-complete : (collect_step r s).complete ≡ true → s.complete ≡ true
  unfolding collect_step
  step-complete h = ground arith

  step-known :
      (n t : Bytes)
      → HasCname n t (r ∷ [])
      → (x : Bytes) × (find n (collect_step r s).targets ≡ some x)
        × ((collect_step r s).complete ≡ true → x ≡ t)
  unfolding collect_step find
  step-known n t (inr h) = elim h [ ]
  step-known n t (inl (is, at, to)) = elim (Option-cases (find r.name s.targets)) [
    | inl e ↦ (t, ground (arith, query_type_eq_iff r.type cname, bytes_eq_refl n), λ _. refl)
    | inr (x, e) ↦ elim (Bool-cases (bytes_eq x r.target)) [
      | inl b ↦ (t, ground (arith, query_type_eq_iff r.type cname, bytes_eq_refl n), λ _. refl)
      | inr b ↦ (
        x,
        ground (arith, query_type_eq_iff r.type cname),
        λ c. absurd (ground (arith, query_type_eq_iff r.type cname)),
      )
    ]
  ]

  step-size : length (collect_step r s).targets ≤ 1 + length s.targets
  unfolding collect_step
  step-size = ground arith

collect-kept :
    (rs : List Record) (s : Collected) (n t : Bytes)
    → find n s.targets ≡ some t
    → find n (collect rs s).targets ≡ some t
unfolding collect
collect-kept [] s n t h = h
collect-kept (r ∷ rs) s n t h = collect-kept rs (collect_step r s) n t (step-kept r s n t h)

collect-from :
    (rs : List Record) (s : Collected) (n t : Bytes)
    → find n (collect rs s).targets ≡ some t
    → (find n s.targets ≡ some t) ⊎ HasCname n t rs
unfolding collect
collect-from [] s n t h = inl h
collect-from (r ∷ rs) s n t h = elim (collect-from rs (collect_step r s) n t h) [
  | inr k ↦ inr (inr k)
  | inl k ↦ elim (step-from r s n t k) [
    | inl e ↦ inl e
    | inr (inl e) ↦ inr (inl e)
    | inr (inr e) ↦ absurd e
  ]
]

collect-complete :
    (rs : List Record) (s : Collected) → (collect rs s).complete ≡ true → s.complete ≡ true
unfolding collect
collect-complete [] s h = h
collect-complete (r ∷ rs) s h = step-complete r s (collect-complete rs (collect_step r s) h)

pub collect-known :
    (rs : List Record) (s : Collected) (n t : Bytes)
    → HasCname n t rs
    → (x : Bytes) × (find n (collect rs s).targets ≡ some x)
      × ((collect rs s).complete ≡ true → x ≡ t)
unfolding collect
collect-known [] s n t h = elim h [ ]
collect-known (r ∷ rs) s n t (inr h) = collect-known rs (collect_step r s) n t h
collect-known (r ∷ rs) s n t (inl h) =
    let (x, found, same) = step-known r s n t (inl h) in
    (
      x,
      collect-kept rs (collect_step r s) n x found,
      λ c. same (collect-complete rs (collect_step r s) c),
    )

pub collect-size :
    (rs : List Record) (s : Collected)
    → length (collect rs s).targets ≤ length rs + length s.targets
unfolding collect
collect-size [] s = omega arith
collect-size (r ∷ rs) s = omega (arith, collect-size rs (collect_step r s), step-size r s)

-- A flag that was lowered tells of two CNAME records of one name that differ.
step-conflict :
    (r : Record) (s : Collected)
    → s.complete ≡ true
    → (collect_step r s).complete ≡ false
    → (x : Bytes) × (find r.name s.targets ≡ some x) × (x ≢ r.target) × (r.type ≡ cname)
unfolding collect_step
step-conflict r s c h = elim (Option-cases (find r.name s.targets)) [
  | inl e ↦ absurd (ground arith)
  | inr (x, e) ↦ (
    x,
    e,
    ground (arith, bytes_eq_iff x r.target),
    ground (arith, query_type_eq_iff r.type cname),
  )
]

-- Two CNAME records of one name with different targets.
pub record Disagree (rs : List Record) : Type 0 where
  pub name : Bytes
  pub one : Bytes
  pub other : Bytes
  pub has_one : HasCname name one rs
  pub has_other : HasCname name other rs
  pub differ : one ≢ other

-- The flag is lowered only by records that disagree, where the map holds targets of `records`.
collect-Disagree :
    (records rs : List Record) (s : Collected)
    → ((n t : Bytes) → HasCname n t rs → HasCname n t records)
    → ((n t : Bytes) → find n s.targets ≡ some t → HasCname n t records)
    → s.complete ≡ true
    → (collect rs s).complete ≡ false
    → Disagree records
unfolding collect
collect-Disagree records [] s sub old c h = absurd (ground arith)
collect-Disagree records (r ∷ rs) s sub old c h = elim (Bool-cases (collect_step r s).complete) [
  | inl still ↦
      collect-Disagree records rs (collect_step r s) (λ n t k. sub n t (inr k))
        (λ n t k. elim (step-from r s n t k) [
          | inl e ↦ old n t e
          | inr (inl e) ↦ sub n t (inl e)
          | inr (inr e) ↦ absurd e
        ])
        still h
  | inr lowered ↦
      let (x, found, differ, is) = step-conflict r s c lowered in
      record {
        name = r.name;
        one = x;
        other = r.target;
        has_one = old r.name x found;
        has_other = sub r.name r.target (inl (is, refl, refl));
        differ = differ;
      }
]

pub collect_all-Disagree :
    (records : List Record)
    → (collect records nothing_collected).complete ≡ false
    → Disagree records
unfolding find
collect_all-Disagree records h =
    collect-Disagree records records nothing_collected (λ n t k. k) (λ n t k. absurd (ground arith))
      refl h

pub collect_all-from :
    (records : List Record) (n t : Bytes)
    → find n (collect records nothing_collected).targets ≡ some t
    → HasCname n t records
unfolding find
collect_all-from records n t h = elim (collect-from records nothing_collected n t h) [
  | inl e ↦ absurd (ground arith)
  | inr k ↦ k
]

pub Chain-append :
    {records : List Record} {a b c : Bytes}
    → Chain records a b
    → HasCname b c records
    → Chain records a c
Chain-append here h = next h here
Chain-append (next k r) h = next k (Chain-append r h)

-- Where CNAME records agree, a chain that ends does so at one name alone.
pub Chain-unique :
    {records : List Record} {n e f : Bytes}
    → Agree records
    → Chain records n e
    → Ends records e
    → Chain records n f
    → Ends records f
    → e ≡ f
Chain-unique agree here ends here ends' = refl
Chain-unique agree here ends (next k r) ends' = absurd (ends _ k)
Chain-unique agree (next k r) ends here ends' = absurd (ends' _ k)
Chain-unique {records} {f = f} agree (next k r) ends (next k' r') ends' =
    Chain-unique agree r ends (subst (λ t. Chain records t f) (agree _ _ _ k' k) r') ends'
