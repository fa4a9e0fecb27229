-- ===== src/Ledger/Scan.antt =====
-- One round of the second loop of `buildAgentLedger` in internal/web/agent_ledger.go.
use mathlib.Core.List.{append-nil}
use m365_copilot2api_dsm.Prelude.{
  ℕ, ◌+◌, ◌≤◌, ◌≡◌, refl, ap, Bool, true, false, ◌&&◌, ◌||◌, not, List, [], ◌∷◌, ◌++◌, leb,
  if◌then◌else◌, is_empty, arith, Bool-cases, inl, inr,
}
use m365_copilot2api_dsm.Ledger.Texts.{
  Text, normalize_failure, same_text, same_text_refl, same_text_eq,
}
use m365_copilot2api_dsm.Ledger.{
  ToolEvidence, Scanned, signature_of, failure_signature_of, last_of, next_same, scan_call,
  next_fail, scan_result,
}

-- Two neighbours of a list are related.
unfoldable pub has_pair_after :
    (ToolEvidence → ToolEvidence → Bool) → ToolEvidence → List ToolEvidence → Bool
has_pair_after r a [] = false
has_pair_after r a (b ∷ es) = r a b || has_pair_after r b es

unfoldable pub has_pair : (ToolEvidence → ToolEvidence → Bool) → List ToolEvidence → Bool
unfolding has_pair_after
has_pair r [] = false
has_pair r (e ∷ es) = has_pair_after r e es

-- Two calls are the same and have the same result, which is not "".
abbrev pub is_repeat : ToolEvidence → ToolEvidence → Bool
is_repeat a b =
    same_text (signature_of b) (signature_of a)
    && (not (is_empty b.result) && same_text b.result a.result)

-- Two calls are the same and failed alike.
abbrev pub is_same_failure : (Text → Text) → ToolEvidence → ToolEvidence → Bool
is_same_failure lower a b =
    a.failed
    && (b.failed && same_text (failure_signature_of lower b) (failure_signature_of lower a))

abbrev pub is_pending : ToolEvidence → Bool
is_pending e = is_empty e.result

abbrev pub is_completed : ToolEvidence → Bool
is_completed e = not (is_empty e.result)

pub joined_not_empty : (s t : Text) → same_text (s ++ 0 ∷ t) [] ≡ false
unfolding same_text
joined_not_empty [] t = refl
joined_not_empty (c ∷ s) t = refl

-- What the loop remembers after a call.
pub record After (a : ToolEvidence) (s : Scanned) : Type 0 where
  pub prev : s.prev_sig ≡ signature_of a
  pub last : last_of (signature_of a) s.last_result ≡ a.result
  pub ran : 1 ≤ s.consec_same

-- What it remembers after a call with a result.
pub record AfterFailure (lower : Text → Text) (a : ToolEvidence) (s : Scanned) : Type 0 where
  pub prev : s.prev_fail ≡ (if a.failed then failure_signature_of lower a else [])
  pub ran : a.failed ≡ true → 1 ≤ s.consec_fail

pub next_same-repeat :
    (a e : ToolEvidence) (s : Scanned) → After a s → leb 2 (next_same s e) ≡ is_repeat a e
next_same-repeat a e s v = elim (Bool-cases (same_text (signature_of e) (signature_of a))) [
  | inl q ↦
      let same = same_text_eq (signature_of e) (signature_of a) q in
      ground (arith, same, v.prev, v.last, v.ran, ap (λ t. last_of t s.last_result) same)
  | inr q ↦ ground (arith, v.prev)
]

pub next_fail-same :
    (lower : Text → Text) (a e : ToolEvidence) (s : Scanned)
    → e.failed ≡ true
    → AfterFailure lower a s
    → leb 2 (next_fail lower s e) ≡ is_same_failure lower a e
next_fail-same lower a e s h v =
    ground
      (arith, v.prev, v.ran, joined_not_empty (signature_of e) (normalize_failure lower e.result))

module _ (lower : Text → Text) (same_limit repeat_limit : ℕ) where
  unfoldable pub round : Scanned → ToolEvidence → Scanned
  round s e = scan_result lower repeat_limit (scan_call same_limit s e) e

  pub round-rounds :
      (s : Scanned) (e : ToolEvidence) → (round s e).ledger.tool_rounds ≡ s.ledger.tool_rounds + 1
  unfolding round scan_call scan_result
  round-rounds s e = ground arith

  pub round-pending :
      (s : Scanned) (e : ToolEvidence)
      → (round s e).ledger.pending ≡ s.ledger.pending ++ (if is_pending e then e ∷ [] else [])
  unfolding round scan_call scan_result
  round-pending s e = ground (arith, append-nil s.ledger.pending)

  pub round-completed :
      (s : Scanned) (e : ToolEvidence)
      → (round s e).ledger.completed ≡ s.ledger.completed ++ (if is_completed e then e ∷ [] else [])
  unfolding round scan_call scan_result
  round-completed s e = ground (arith, append-nil s.ledger.completed)

  pub round-call :
      (s : Scanned) (e : ToolEvidence)
      → (round s e).ledger.repeated_call
        ≡ (if leb 2 (next_same s e) then true else s.ledger.repeated_call)
  unfolding round scan_call scan_result
  round-call s e = ground arith

  pub round-After : (s : Scanned) (e : ToolEvidence) → After e (round s e)
  unfolding round scan_call scan_result last_of
  round-After s e = record {
    prev = ground arith;
    last = ground (arith, same_text_refl (signature_of e));
    ran = ground arith;
  }

  pub round-failure :
      (s : Scanned) (e : ToolEvidence)
      → (round s e).ledger.repeated_failure ≡ (
          if is_empty e.result
          then s.ledger.repeated_failure
          else if e.failed
          then (if leb 2 (next_fail lower s e) then true else s.ledger.repeated_failure)
          else s.ledger.repeated_failure)
  unfolding round scan_call scan_result
  round-failure s e = ground arith

  pub round-AfterFailure :
      (s : Scanned) (e : ToolEvidence)
      → is_empty e.result ≡ false
      → AfterFailure lower e (round s e)
  unfolding round scan_call scan_result
  round-AfterFailure s e h = record { prev = ground arith; ran = ground arith }

  pub round-AfterFailure_pending :
      (a : ToolEvidence) (s : Scanned) (e : ToolEvidence)
      → is_empty e.result ≡ true
      → AfterFailure lower a s
      → AfterFailure lower a (round s e)
  unfolding round scan_call scan_result
  round-AfterFailure_pending a s e h v = record {
    prev = ground (arith, v.prev);
    ran = ground (arith, v.ran);
  }

  pub round-prev_fail_pending :
      (s : Scanned) (e : ToolEvidence)
      → is_empty e.result ≡ true
      → (round s e).prev_fail ≡ s.prev_fail
  unfolding round scan_call scan_result
  round-prev_fail_pending s e h = ground arith
