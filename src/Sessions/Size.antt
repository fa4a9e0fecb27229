-- ===== src/Sessions/Size.antt =====
-- The number of sessions that internal/web/session_resolver.go stores.
use m365_copilot2api_dsm.Prelude.{
  ℕ, zero, suc, ◌+◌, ◌-◌, ◌≤◌, ◌≡◌, ◌≢◌, refl, sym, subst, ◌∙◌, none, String, [], ◌∷◌, arith, inl,
  inr, map, Bool-cases, ltb, leb, length, take, str_eq, eq_iff, eq_refl, Dict, lookup, Distinct,
  lookup-delete, length-delete-lt, place, sort_by, length-sort_by, value_or,
}
use m365_copilot2api_dsm.Sessions.Store.{
  SessionBinding, SessionResolver, drop_session, drop_all, drop_least_used, no_binding, by_use,
}

-- The same entries, perhaps in another order.
abbrev Same : Dict SessionBinding → Dict SessionBinding → Type 0
Same d e = Distinct d × ((k : String) → lookup k d ≡ lookup k e)

place-Same :
    (measure : String × SessionBinding → ℕ) (k : String) (s : SessionBinding)
    (d : Dict SessionBinding)
    → lookup k d ≡ none
    → Distinct d
    → Same (place measure (k, s) d) ((k, s) ∷ d)
unfolding place lookup
place-Same measure k s [] n h = ((n, tt), λ j. refl)
place-Same measure k s ((i, t) ∷ d) n h =
    elim (Bool-cases (leb (measure (k, s)) (measure (i, t)))) [
      | inl q ↦ rw q ((n, h), λ j. refl)
      | inr q ↦ rw q (
          let free : lookup k d ≡ none = ground (arith, n) in
          let (distinct, same) = place-Same measure k s d free h.1 in
          (
            (same i ∙ ground (arith, n, h.0, eq_iff k i, eq_iff i k, eq_refl k), distinct),
            λ j. ground (arith, same j, n, eq_iff k j, eq_iff i j, eq_iff i k, eq_refl k),
          ))
    ]

sort_by-Same :
    (measure : String × SessionBinding → ℕ) (d : Dict SessionBinding)
    → Distinct d
    → Same (sort_by measure d) d
unfolding sort_by lookup
sort_by-Same measure [] h = (tt, λ j. refl)
sort_by-Same measure ((k, s) ∷ d) h =
    let (distinct, same) = sort_by-Same measure d h.1 in
    let (placed, added) = place-Same measure k s (sort_by measure d) (same k ∙ h.0) distinct in
    (placed, λ j. added j ∙ ground (arith, same j))

-- Each key that goes is in the map.
length-drop_all :
    (n : ℕ) (es : Dict SessionBinding) (r : SessionResolver)
    → n ≤ length es
    → Distinct es
    → ((k : String) → lookup k es ≢ none → lookup k r.sessions ≢ none)
    → length (drop_all (take n (map (λ (e : String × SessionBinding). e.0) es)) r).sessions + n
      ≤ length r.sessions
unfolding drop_all drop_session lookup
length-drop_all zero es r le h held = omega arith
length-drop_all (suc n) [] r le h held = absurd (omega arith)
length-drop_all (suc n) ((k, s) ∷ es) r le h held =
    let found : lookup k r.sessions ≢ none = held k (ground (arith, eq_refl k)) in
    let next = drop_session r k (value_or no_binding (lookup k r.sessions)) in
    omega (
      arith,
      length-delete-lt k r.sessions found,
      length-drop_all n es next (omega arith) h.1 (λ j there gone. elim (Bool-cases (str_eq k j)) [
        | inl q ↦ there (subst (λ x. lookup x es ≡ none) ((eq_iff k j).0 q) h.0)
        | inr q ↦
            held j (λ e. there (sym (ground (arith, q)) ∙ e))
              (sym (lookup-delete k j r.sessions ∙ ground (arith, q)) ∙ gone)
      ]),
    )

-- After an eviction there are at most as many sessions as the limit says.
pub drop_least_used-le :
    (r : SessionResolver)
    → Distinct r.sessions
    → length (drop_least_used r).sessions ≤ r.max_sessions
unfolding drop_least_used by_use
drop_least_used-le r h = elim (Bool-cases (ltb r.max_sessions (length r.sessions))) [
  | inl q ↦ rw q (
      let by = λ (e : String × SessionBinding). e.1.last_used_at in
      let (distinct, same) = sort_by-Same by r.sessions h in
      let n = length r.sessions - r.max_sessions in
      let dropped =
        length-drop_all n (sort_by by r.sessions) r (omega (arith, length-sort_by by r.sessions))
          distinct (λ k there gone. there (same k ∙ gone)) in
      ground (arith, q, dropped))
  | inr q ↦ rw q (ground arith)
]
