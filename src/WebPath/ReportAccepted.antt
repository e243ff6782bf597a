-- ===== src/WebPath/ReportAccepted.antt =====
-- What Observe reports passes Validate.
use reachrun.Prelude.{
  ℕ, suc, ◌+◌, ◌≤◌, Bool, true, false, Option, none, some, List, [], ◌∷◌, ◌++◌, Bytes, codes,
  bytes_eq, bytes_eq_iff, is_empty, length, IfSome, ◌≡◌, refl, sym, ap, ◌∙◌, subst, ◌⊎◌, inl, inr,
  Bool-cases, Option-cases, arith, ok,
}
use mathlib.Core.Option
use reachrun.NetTarget.Hostname.{check_web_hostname, normalize_web_hostname}
use reachrun.NetTarget.RequestTarget.{Url}
use reachrun.WebObservation.{scheme_of}
use reachrun.WebPath
use reachrun.WebPath.{
  Status, stopped, StopReason, all_candidates_failed, Detail, plain, context_done, Input, Report,
  max_redirects,
}
use reachrun.WebPath.Candidates.{terminal_context}
use reachrun.WebPath.Hops.{World}
use reachrun.WebPath.Chain.{ChainResult, contains_text}
use reachrun.WebPath.Observe.{
  Clock, input_of, root_url, end_chain, needs_fallback, after_chain, after_first, observe_url,
  observe,
}
use reachrun.WebPath.Checks.{first_url, validate_hops, fallback_missing, validate_report}
use reachrun.WebPath.Checks.Hop.{validate_hop, exhausted_public_candidates}
use reachrun.WebPath.Checks.Transitions.{Parsed, count_transitions, check_reason, last_hop}
use reachrun.WebPath.Ends.{Interrupted, terminal_context-Interrupted}
use reachrun.WebPath.Follow.{Chain, observe_chain-Chain}
use reachrun.WebPath.Limits.{Chain-limits, Chain-exhausted, needs_fallback-parts}
use reachrun.WebPath.WebUrl.{IsWebUrl, IsWebLibrary, root_url-IsWebUrl}
use reachrun.WebPath.HopAccepted.{observed_hop-valid}
use reachrun.WebPath.Explained.{Interrupted-IsEnd}
use reachrun.WebPath.ChainAccepted.{Counted, IsAccepted, Chain-IsAccepted}
use reachrun.WebPath.ReportChecked.{
  IsReporter, Interrupted-is_interrupted, Heads, parsed-Heads, exhausted-hop, IsChecked,
  end_chain-valid, validate_report-ok,
}

module _ (w : World) (clock : Clock) (lawful : IsWebLibrary w.net w.urls)
    (reporter : IsReporter w clock) where
  module _ (host : Bytes) (accepted : check_web_hostname w.net host ≡ ok tt) where
    abbrev https : Url
    https = root_url (codes "https") host

    abbrev http : Url
    http = root_url (codes "http") host

    -- A web scheme, and the text of the first URL.
    https_text : w.urls.text https ≡ (input_of host).initial_url
    unfolding scheme_of bytes_eq
    https_text = lawful.root_text (codes "https") host refl accepted

    http_text : w.urls.text http ≡ codes "http://" ++ host ++ codes "/"
    unfolding scheme_of bytes_eq
    http_text = lawful.root_text (codes "http") host refl accepted

    https-IsWebUrl : IsWebUrl w.net w.urls https
    unfolding scheme_of bytes_eq
    https-IsWebUrl = root_url-IsWebUrl w.net w.urls lawful (codes "https") host refl accepted

    http-IsWebUrl : IsWebUrl w.net w.urls http
    unfolding scheme_of bytes_eq
    http-IsWebUrl = root_url-IsWebUrl w.net w.urls lawful (codes "http") host refl accepted

    first_url-ok :
        (u : Url) (n : ℕ) (pending : Bool) (hops : List WebPath.Hop) (parsed : List Parsed)
        (followed : ℕ)
        → Heads hops parsed
        → Counted w u n pending parsed followed
        → w.urls.text u ≡ (input_of host).initial_url
        → first_url (input_of host).initial_url hops ≡ true
    first_url-ok u n pending [] parsed followed heads counts text = refl
    first_url-ok u n pending (h ∷ hops) [] followed heads counts text = elim heads [ ]
    first_url-ok u n pending (h ∷ hops) (p ∷ parsed) followed heads (same, url, counts) text =
        (bytes_eq_iff h.url (input_of host).initial_url).1
          (ap (λ x. x.url) (sym heads) ∙ url ∙ text)

    Counted-chain :
        (u : Url) (parsed : List Parsed) (followed : ℕ)
        → Counted w u 0 false parsed followed
        → count_transitions w false host parsed ≡ ok followed
    unfolding count_transitions
    Counted-chain u [] followed counts = ap ok (sym counts)
    Counted-chain u (p ∷ rest) followed (same, url, (k, counted, sum)) =
        let total : k ≡ followed = omega arith in counted ∙ ap ok total

    first-IsChecked :
        (c : ChainResult)
        → IsAccepted w https 0 false [] c
        → length c.hops ≤ 4
        → c.redirects_followed ≤ 3
        → IsChecked w host c.status c.reason c.detail c.redirects_followed false c.hops
    first-IsChecked c is short few = record {
      is_end = is.is_end;
      few = few;
      short = short;
      first =
          first_url-ok https 0 false c.hops is.parsed c.redirects_followed
            (parsed-Heads w c.hops is.parsed is.hops) is.counts (https_text);
      parsed = is.parsed;
      hops_valid = is.hops;
      exhausted = refl;
      counted = Counted-chain https is.parsed c.redirects_followed is.counts;
      fallback_seen = refl;
      explained = elim is.explained [
        | inl i ↦ inl (Interrupted-is_interrupted c.status c.reason i)
        | inr why ↦ inr why
      ];
    }

    Counted-fallback :
        (first : Parsed) (n : ℕ) (parsed : List Parsed) (followed : ℕ)
        → n ≡ 0
        → exhausted_public_candidates w first.0 ≡ true
        → Counted w http n false parsed followed
        → count_transitions w true host (first ∷ parsed) ≡ ok followed
    unfolding count_transitions
    Counted-fallback first n [] followed zero_n spent counts = ap ok (sym (counts ∙ zero_n))
    Counted-fallback first n (p ∷ rest) followed zero_n spent (same, url, (k, counted, sum)) =
        let here : bytes_eq p.0.url (codes "http://" ++ host ++ codes "/") ≡ true =
          (bytes_eq_iff _ _).1 (url ∙ http_text) in
        let total : k ≡ followed = omega arith in rw (here, spent) (counted ∙ ap ok total)

    fallback-seen :
        (hops : List WebPath.Hop) (parsed : List Parsed) (status : Status) (reason : StopReason)
        → Heads hops parsed
        → Interrupted status reason ⊎ (is_empty parsed ≡ false)
        → fallback_missing true (suc (length hops)) status reason ≡ false
    fallback-seen hops parsed status reason heads (inl i) =
        let cut = Interrupted-is_interrupted status reason i in ground (arith, cut)
    fallback-seen [] [] status reason heads (inr filled) = cc filled
    fallback-seen [] (p ∷ parsed) status reason heads (inr filled) = elim heads [ ]
    fallback-seen (h ∷ hops) parsed status reason heads (inr filled) = ground arith

    second-IsChecked :
        (h : WebPath.Hop) (u : Url) (n : ℕ) (c : ChainResult)
        → n ≡ 0
        → validate_hop w w.platform h ≡ ok u
        → h.url ≡ w.urls.text https
        → exhausted_public_candidates w h ≡ true
        → IsAccepted w http n false ((h, u) ∷ []) c
        → length c.hops ≤ 4
        → c.redirects_followed ≤ 3
        → IsChecked w host c.status c.reason c.detail c.redirects_followed true (h ∷ c.hops)
    unfolding validate_hops
    second-IsChecked h u n c zero_n valid url spent is short few = record {
      is_end = is.is_end;
      few = few;
      short = omega arith;
      first = (bytes_eq_iff h.url (input_of host).initial_url).1 (url ∙ https_text);
      parsed = (h, u) ∷ is.parsed;
      hops_valid = rw (validate_hops, valid, is.hops) refl;
      exhausted = rw spent refl;
      counted = Counted-fallback (h, u) n is.parsed c.redirects_followed zero_n spent is.counts;
      fallback_seen =
          fallback-seen c.hops is.parsed c.status c.reason (parsed-Heads w c.hops is.parsed is.hops)
            (elim is.explained [ inl i ↦ inl i | inr (p, rest, e, checked) ↦ inr (rw e refl) ]);
      explained = elim is.explained [
        | inl i ↦ inl (Interrupted-is_interrupted c.status c.reason i)
        | inr (p, rest, e, checked) ↦ inr (
          (h, u),
          is.parsed,
          refl,
          subst
              (λ l.
                check_reason w c.reason c.redirects_followed ((h, u) ∷ l) (last_hop (h, u) l)
                ≡ ok tt)
              (sym e) checked,
        )
      ];
    }

    -- A report that passes.
    abbrev IsValid : Report → Type 0
    IsValid r = validate_report w r ≡ ok tt

    after_fallback-IsValid :
        (hops : List WebPath.Hop) (h : WebPath.Hop) (n : ℕ) (chain : Option ChainResult)
        → hops ≡ h ∷ []
        → n ≡ 0
        → validate_hop w w.platform h ≡ ok https
        → h.url ≡ w.urls.text https
        → exhausted_public_candidates w h ≡ true
        → IfSome (λ c. Chain w http (w.urls.text http ∷ []) n false false c) ⊥ chain
        → IfSome IsValid ⊥ (Option.map (end_chain w clock (input_of host) true hops) chain)
    unfolding contains_text
    after_fallback-IsValid hops h n none one zero_n valid url spent bad = bad
    after_fallback-IsValid hops h n (some c) one zero_n valid url spent run =
        let limits = Chain-limits w run in
        let accepted' =
          Chain-IsAccepted w lawful run http-IsWebUrl (omega arith) ((h, https) ∷ [])
            (λ t seen. ground (arith, seen)) in
        end_chain-valid w clock lawful reporter host accepted true hops c (
          subst
            (λ l.
              IsChecked w host c.status c.reason c.detail c.redirects_followed true (l ++ c.hops))
            (sym one)
            (second-IsChecked h https n c zero_n valid url spent accepted' (omega arith)
              (omega arith)))

    after_chain-IsValid :
        (c : ChainResult)
        → Chain w https (w.urls.text https ∷ []) 0 false false c
        → IfSome IsValid ⊥ (after_chain w clock (input_of host) host c)
    unfolding after_chain contains_text
    after_chain-IsValid c run = elim (Bool-cases (needs_fallback w clock c)) [
      | inr e ↦
          let limits = Chain-limits w run in
          let accepted' =
            Chain-IsAccepted w lawful run https-IsWebUrl (omega arith) []
              (λ t seen. ground (arith, seen)) in
          rw (after_chain, e)
            (end_chain-valid w clock lawful reporter host accepted false [] c
              (first-IsChecked c accepted' (omega arith) (omega arith)))
      | inl e ↦
          let parts = needs_fallback-parts w clock c e in
          let (h, hops, none_followed, run') = Chain-exhausted w run parts.0 parts.1 in
          let (spent, url) = exhausted-hop w https h c.status c.reason c.detail run' parts.0 in
          rw (after_chain, e)
            (after_fallback-IsValid c.hops h c.redirects_followed _ hops none_followed
              (observed_hop-valid w lawful https https-IsWebUrl h _ run') url spent
              (observe_chain-Chain w http c.redirects_followed (c.time + 1)))
    ]

    after_first-IsValid :
        (chain : Option ChainResult)
        → IfSome (λ c. Chain w https (w.urls.text https ∷ []) 0 false false c) ⊥ chain
        → IfSome IsValid ⊥ (after_first w clock (input_of host) chain)
    after_first-IsValid none bad = bad
    after_first-IsValid (some c) run = after_chain-IsValid c run

    observe_url-IsValid : IfSome IsValid ⊥ (observe_url w clock (input_of host) (some https))
    unfolding observe_url validate_hops count_transitions
    observe_url-IsValid = elim (Option-cases (terminal_context (w.contexts 0))) [
      | inr ((status, reason), e) ↦
          let i = rw e at (terminal_context-Interrupted (w.contexts 0)) in
          rw (observe_url, e)
            (validate_report-ok w clock lawful reporter host accepted (record {
              is_end = Interrupted-IsEnd status reason context_done i;
              few = ground arith;
              short = ground arith;
              first = refl;
              parsed = [];
              hops_valid = refl;
              exhausted = refl;
              counted = refl;
              fallback_seen = refl;
              explained = inl (Interrupted-is_interrupted status reason i);
            }))
      | inl e ↦ rw (observe_url, e) (after_first-IsValid _ (observe_chain-Chain w https 0 1))
    ]

  -- With net/netip and net/url as `IsWebLibrary` states, a clock that does not read the zero time and a
  -- platform that is filled in, for a hostname that `NormalizeWebHostname` accepts, `Observe` returns a
  -- report and this report passes `Validate`, whatever the resolver, the web observer and the contexts
  -- answer. The clock may read any zone, and may go back.
  pub observe-valid :
      (hostname : Bytes)
      → (normalize_web_hostname w.net hostname).1 ≡ ok tt
      → IfSome (λ r. validate_report w r ≡ ok tt) ⊥ (observe w clock hostname)
  unfolding observe normalize_web_hostname
  observe-valid hostname good =
      let host = (normalize_web_hostname w.net hostname).0 in
      rw (observe, good) (observe_url-IsValid host good)
