-- ===== src/Sessions/Search.antt =====
-- The loops of `matchContextLocked`, `matchSuffixLocked` and `matchFuzzyContextLocked` in
-- internal/web/session_resolver.go.
use m365_copilot2api_dsm.Prelude.{
  ℕ, ◌≤◌, ◌≡◌, refl, sym, subst, Bool, true, not, some, String, [], ◌∷◌, str_eq, if◌then◌else◌,
  Dict, lookup, Distinct, arith, inl, inr, ◌⊎◌, Bool-cases, if_both, ltb, leb, ◌==◌, ◌&&◌, ◌||◌,
}
use m365_copilot2api_dsm.Sessions.Store.{SessionBinding}
use m365_copilot2api_dsm.Sessions.Matching.{Ratio, ratio_lt, messages_text}
use m365_copilot2api_dsm.Sessions.Resolve.{Match, better, best_match, FuzzyMatch, best_fuzzy}
use m365_copilot2api_dsm.Sessions.Stored.{AllHeld, AllHeld-self}

module _ (least : ℕ) (may : SessionBinding → Bool) (fit : SessionBinding → ℕ) where
  -- A match is a session of the map that may be taken, with what fits of it.
  pub record Fits (d : Dict SessionBinding) (m : Match) (s : SessionBinding) : Type 0 where
    pub held : lookup m.id d ≡ some s
    pub eligible : may s ≡ true
    pub counted : m.n ≡ fit s
    pub enough : least ≤ m.n

  abbrev Found : Dict SessionBinding → Match → Type 0
  Found d m = (m.id ≡ "") ⊎ ((s : SessionBinding) × Fits d m s)

  better-Found :
      (d : Dict SessionBinding) (best : Match) (id : String) (s : SessionBinding)
      → lookup id d ≡ some s
      → may s ≡ true
      → Found d best
      → Found d (better least best id s (fit s))
  unfolding better
  better-Found d best id s held ok found =
      elim (Bool-cases (
        leb least (fit s)
        && (ltb best.n (fit s) || (fit s == best.n && ltb best.recent s.last_used_at)))) [
          | inl q ↦ rw q (
              inr (s, record { held = held; eligible = ok; counted = refl; enough = ground arith }))
          | inr q ↦ rw q found
        ]

  best_match-Found :
      (d es : Dict SessionBinding) (best : Match)
      → AllHeld es d
      → Found d best
      → Found d (best_match least may fit best es)
  unfolding best_match
  best_match-Found d [] best held found = found
  best_match-Found d ((id, s) ∷ es) best held found =
      best_match-Found d es (if may s then better least best id s (fit s) else best) held.1
        (elim (Bool-cases (may s)) [
          | inl q ↦
              subst (λ b. Found d (if b then better least best id s (fit s) else best)) (sym q)
                (better-Found d best id s held.0 q found)
          | inr q ↦
              subst (λ b. Found d (if b then better least best id s (fit s) else best)) (sym q)
                found
        ])

  pub best_match-held :
      (d : Dict SessionBinding) (best : Match)
      → Distinct d
      → best.id ≡ ""
      → Found d (best_match least may fit best d)
  best_match-held d best distinct e = best_match-Found d d best (AllHeld-self d distinct) (inl e)

  better-ge :
      (best : Match) (id : String) (s : SessionBinding) (n : ℕ)
      → best.n ≤ (better least best id s n).n
  unfolding better
  better-ge best id s n = ground arith

  best_match-ge :
      (es : Dict SessionBinding) (best : Match) → best.n ≤ (best_match least may fit best es).n
  unfolding best_match
  best_match-ge [] best = omega arith
  best_match-ge ((id, s) ∷ es) best = ground (
    arith,
    best_match-ge es best,
    best_match-ge es (better least best id s (fit s)),
    better-ge best id s (fit s),
  )

  better-ge_new :
      (best : Match) (id : String) (s : SessionBinding) (n : ℕ)
      → least ≤ n
      → n ≤ (better least best id s n).n
  unfolding better
  better-ge_new best id s n h = ground arith

  -- No session that may be taken fits better.
  pub best_match-best :
      (es : Dict SessionBinding) (best : Match) (k : String) (s : SessionBinding)
      → lookup k es ≡ some s
      → may s ≡ true
      → least ≤ fit s
      → fit s ≤ (best_match least may fit best es).n
  unfolding best_match lookup
  best_match-best [] best k s h ok enough = cc
  best_match-best ((id, t) ∷ es) best k s h ok enough = elim (Bool-cases (str_eq id k)) [
    | inl q ↦
        let same : t ≡ s = ground arith in
        ground (
          arith,
          same,
          ok,
          better-ge_new best id t (fit t),
          enough,
          best_match-ge es (better least best id t (fit t)),
        )
    | inr q ↦
        best_match-best es (if may t then better least best id t (fit t) else best) k s
          (subst (λ b. (if b then some t else lookup k es) ≡ some s) q h) ok enough
  ]

module _ (threshold : Ratio) (may : SessionBinding → Bool) (score : String → Ratio) where
  abbrev FuzzyFound : Dict SessionBinding → FuzzyMatch → Type 0
  FuzzyFound d m = (m.id ≡ "") ⊎ ((s : SessionBinding) × (lookup m.id d ≡ some s) × (may s ≡ true))

  best_fuzzy-Found :
      (d es : Dict SessionBinding) (best : FuzzyMatch)
      → AllHeld es d
      → FuzzyFound d best
      → FuzzyFound d (best_fuzzy threshold may score best es)
  unfolding best_fuzzy
  best_fuzzy-Found d [] best held found = found
  best_fuzzy-Found d ((id, s) ∷ es) best held found =
      let haystack = messages_text s.context_history in
      let rest =
        not (str_eq haystack "")
        && not (ratio_lt (score haystack) threshold)
        && ratio_lt best.score (score haystack) in
      let next : FuzzyMatch = record { id = id; score = score haystack } in
      best_fuzzy-Found d es (if may s && rest then next else best) held.1
        (elim (Bool-cases (may s)) [
          | inl q ↦ if_both (FuzzyFound d) (may s && rest) (inr (s, held.0, q)) found
          | inr q ↦ subst (λ b. FuzzyFound d (if b && rest then next else best)) (sym q) found
        ])

  pub best_fuzzy-held :
      (d : Dict SessionBinding) (best : FuzzyMatch)
      → Distinct d
      → best.id ≡ ""
      → FuzzyFound d (best_fuzzy threshold may score best d)
  best_fuzzy-held d best distinct e = best_fuzzy-Found d d best (AllHeld-self d distinct) (inl e)
