-- ===== src/Ledger/Continue.antt =====
-- `buildAgentLedger` and `CanContinue` of internal/web/agent_ledger.go, by the evidence alone.
use mathlib.Core.List.{append-nil}
use m365_copilot2api_dsm.Prelude.{
  ℕ, ◌+◌, ◌<◌, ◌≡◌, refl, ap, sym, ◌∙◌, Bool, true, false, ◌||◌, none, List, [], ◌∷◌, ◌++◌,
  if◌then◌else◌, is_empty, length, filter, arith, Bool-cases, inl, inr,
}
use m365_copilot2api_dsm.Ledger.Texts.{Text, normalize_failure}
use m365_copilot2api_dsm.Ledger.{
  Turn, ToolEvidence, AgentLedger, Scanned, start, signature_of, scan, evidence_of,
  build_agent_ledger, can_continue,
}
use m365_copilot2api_dsm.Ledger.Scan.{
  has_pair, has_pair_after, is_repeat, is_same_failure, is_pending, is_completed, After,
  AfterFailure, round, round-rounds, round-pending, round-completed, round-call, round-After,
  round-failure, round-AfterFailure, round-AfterFailure_pending, round-prev_fail_pending,
  next_same-repeat, next_fail-same, joined_not_empty,
}

if_or : (b c : Bool) → (if b then true else c) ≡ (c || b)
if_or b c = ground arith

append-kept :
    (p : ToolEvidence → Bool) (xs : List ToolEvidence) (e : ToolEvidence) (es : List ToolEvidence)
    → (xs ++ (if p e then e ∷ [] else [])) ++ filter p es ≡ xs ++ filter p (e ∷ es)
append-kept p [] e es = ground arith
append-kept p (x ∷ xs) e es = ap (◌∷◌ x) (append-kept p xs e es)

module _ (lower : Text → Text) (same_limit repeat_limit : ℕ) where
  after : Scanned → List ToolEvidence → AgentLedger
  after s es = (scan lower same_limit repeat_limit s es).ledger

  after_more :
      (s : Scanned) (e : ToolEvidence) (es : List ToolEvidence)
      → after s (e ∷ es) ≡ after (round lower same_limit repeat_limit s e) es
  unfolding after round scan
  after_more s e es = refl

  after-rounds :
      (s : Scanned) (es : List ToolEvidence)
      → (after s es).tool_rounds ≡ s.ledger.tool_rounds + length es
  after-rounds s [] = unfold after in unfold scan in omega arith
  after-rounds s (e ∷ es) = omega (
    arith,
    ap (λ l. l.tool_rounds) (after_more s e es),
    after-rounds (round lower same_limit repeat_limit s e) es,
    round-rounds lower same_limit repeat_limit s e,
  )

  after-pending :
      (s : Scanned) (es : List ToolEvidence)
      → (after s es).pending ≡ s.ledger.pending ++ filter is_pending es
  after-pending s [] = unfold after in unfold scan in sym (append-nil s.ledger.pending)
  after-pending s (e ∷ es) =
      ap (λ l. l.pending) (after_more s e es)
      ∙ after-pending (round lower same_limit repeat_limit s e) es
      ∙ ap (λ l. l ++ filter is_pending es) (round-pending lower same_limit repeat_limit s e)
      ∙ append-kept is_pending s.ledger.pending e es

  after-completed :
      (s : Scanned) (es : List ToolEvidence)
      → (after s es).completed ≡ s.ledger.completed ++ filter is_completed es
  after-completed s [] = unfold after in unfold scan in sym (append-nil s.ledger.completed)
  after-completed s (e ∷ es) =
      ap (λ l. l.completed) (after_more s e es)
      ∙ after-completed (round lower same_limit repeat_limit s e) es
      ∙ ap (λ l. l ++ filter is_completed es) (round-completed lower same_limit repeat_limit s e)
      ∙ append-kept is_completed s.ledger.completed e es

  after-repeat :
      (a : ToolEvidence) (s : Scanned) (es : List ToolEvidence)
      → After a s
      → (after s es).repeated_call ≡ (s.ledger.repeated_call || has_pair_after is_repeat a es)
  after-repeat a s [] v = unfold after in unfold scan in unfold has_pair_after in ground arith
  after-repeat a s (e ∷ es) v =
      ap (λ l. l.repeated_call) (after_more s e es)
      ∙ after-repeat e (round lower same_limit repeat_limit s e) es
          (round-After lower same_limit repeat_limit s e)
      ∙ (unfold has_pair_after in
          ground (arith, round-call lower same_limit repeat_limit s e, next_same-repeat a e s v))

  after-failure :
      (a : ToolEvidence) (s : Scanned) (es : List ToolEvidence)
      → AfterFailure lower a s
      → (after s es).repeated_failure ≡ (
          s.ledger.repeated_failure
          || has_pair_after (is_same_failure lower) a (filter is_completed es))
  after-failure a s [] v = unfold after in unfold scan in unfold has_pair_after in ground arith
  after-failure a s (e ∷ es) v =
      ap (λ l. l.repeated_failure) (after_more s e es) ∙ elim (Bool-cases (is_empty e.result)) [
        | inl q ↦
            after-failure a (round lower same_limit repeat_limit s e) es
              (round-AfterFailure_pending lower same_limit repeat_limit a s e q v)
            ∙ (unfold has_pair_after in
                ground (arith, round-failure lower same_limit repeat_limit s e))
        | inr q ↦
            after-failure e (round lower same_limit repeat_limit s e) es
              (round-AfterFailure lower same_limit repeat_limit s e q)
            ∙ (unfold has_pair_after in
                ground (
                  arith,
                  round-failure lower same_limit repeat_limit s e,
                  next_fail-same lower a e s,
                ))
      ]

  round-fresh_call :
      (s : Scanned) (e : ToolEvidence)
      → s.prev_sig ≡ []
      → (round lower same_limit repeat_limit s e).ledger.repeated_call ≡ s.ledger.repeated_call
  round-fresh_call s e h =
      ground (
        arith,
        h,
        round-call lower same_limit repeat_limit s e,
        joined_not_empty e.name e.arguments,
      )

  after-repeat_fresh :
      (s : Scanned) (es : List ToolEvidence)
      → s.prev_sig ≡ []
      → (after s es).repeated_call ≡ (s.ledger.repeated_call || has_pair is_repeat es)
  after-repeat_fresh s [] h = unfold after in unfold scan in unfold has_pair in ground arith
  after-repeat_fresh s (e ∷ es) h =
      ap (λ l. l.repeated_call) (after_more s e es)
      ∙ after-repeat e (round lower same_limit repeat_limit s e) es
          (round-After lower same_limit repeat_limit s e)
      ∙ (unfold has_pair in ap (λ b. b || has_pair_after is_repeat e es) (round-fresh_call s e h))

  round-fresh_failure :
      (s : Scanned) (e : ToolEvidence)
      → s.prev_fail ≡ []
      → (round lower same_limit repeat_limit s e).ledger.repeated_failure
        ≡ s.ledger.repeated_failure
  round-fresh_failure s e h = ground (
    arith,
    h,
    round-failure lower same_limit repeat_limit s e,
    joined_not_empty (signature_of e) (normalize_failure lower e.result),
  )

  after-failure_fresh :
      (s : Scanned) (es : List ToolEvidence)
      → s.prev_fail ≡ []
      → (after s es).repeated_failure
        ≡ (s.ledger.repeated_failure || has_pair (is_same_failure lower) (filter is_completed es))
  after-failure_fresh s [] h = unfold after in unfold scan in unfold has_pair in ground arith
  after-failure_fresh s (e ∷ es) h =
      ap (λ l. l.repeated_failure) (after_more s e es) ∙ elim (Bool-cases (is_empty e.result)) [
        | inl q ↦
            after-failure_fresh (round lower same_limit repeat_limit s e) es
              (round-prev_fail_pending lower same_limit repeat_limit s e q ∙ h)
            ∙ ground (arith, q, round-fresh_failure s e h)
        | inr q ↦
            after-failure e (round lower same_limit repeat_limit s e) es
              (round-AfterFailure lower same_limit repeat_limit s e q)
            ∙ (unfold has_pair in ground (arith, q, round-fresh_failure s e h))
      ]

-- What the ledger says of a conversation, by its evidence alone: the rounds are its calls, the pending
-- ones are those with no result and the completed ones the others, in order; a call is repeated when
-- two neighbours are the same call with the same result; and a failure is repeated when two calls,
-- neighbours once those with no result are left out, are the same and failed alike. The limits for loops
-- have no part in it.
pub build_agent_ledger_lem :
    (failure_signal : Text → Bool) (lower : Text → Text) (same_limit repeat_limit : ℕ)
    (turns : List Turn)
    → let es = evidence_of failure_signal turns in
      let l = build_agent_ledger failure_signal lower same_limit repeat_limit turns in
      (l.tool_rounds ≡ length es)
      × (l.pending ≡ filter is_pending es)
      × (l.completed ≡ filter is_completed es)
      × (l.repeated_call ≡ has_pair is_repeat es)
      × (l.repeated_failure ≡ has_pair (is_same_failure lower) (filter is_completed es))
unfolding build_agent_ledger after
build_agent_ledger_lem failure_signal lower same_limit repeat_limit turns =
    let es = evidence_of failure_signal turns in
    (
      after-rounds lower same_limit repeat_limit start es ∙ omega arith,
      after-pending lower same_limit repeat_limit start es,
      after-completed lower same_limit repeat_limit start es,
      after-repeat_fresh lower same_limit repeat_limit start es refl,
      after-failure_fresh lower same_limit repeat_limit start es refl,
    )

goes_on :
    (l : AgentLedger) (max_rounds : ℕ)
    → 0 < max_rounds
    → can_continue l max_rounds ≡ none
    → (l.tool_rounds < max_rounds) × (is_empty l.pending ≡ true) × (l.repeated_failure ≡ false)
unfolding can_continue
goes_on l max_rounds pos h = ground arith

-- When the loop may go on, the conversation has fewer calls than the rounds allowed, each has its
-- result, and no two in a row are the same and failed alike.
pub can_continue_sound :
    (failure_signal : Text → Bool) (lower : Text → Text) (same_limit repeat_limit max_rounds : ℕ)
    (turns : List Turn)
    → 0 < max_rounds
    → can_continue
        (build_agent_ledger failure_signal lower same_limit repeat_limit turns)
        max_rounds
      ≡ none
    → let es = evidence_of failure_signal turns in
      (length es < max_rounds)
      × (is_empty (filter is_pending es) ≡ true)
      × (has_pair (is_same_failure lower) (filter is_completed es) ≡ false)
can_continue_sound failure_signal lower same_limit repeat_limit max_rounds turns pos h =
    let g = goes_on _ max_rounds pos h in
    let b = build_agent_ledger_lem failure_signal lower same_limit repeat_limit turns in
    (omega (arith, g.0, b.0), ap is_empty (sym b.1) ∙ g.1, sym b.4 ∙ g.2)
