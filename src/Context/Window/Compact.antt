-- ===== src/Context/Window/Compact.antt =====
-- `maybeCompactContext` of internal/web/auto_compact.go.
use m365_copilot2api_dsm.Prelude.{
  ℕ, ◌≡◌, refl, ap, ◌∙◌, Bool, true, false, not, ◌||◌, Option, none, some, String, List, [], ◌∷◌,
  ◌++◌, ltb, ◌==◌, if◌then◌else◌, is_empty, if_both, subst, inl, inr, ◌⊎◌,
}
use m365_copilot2api_dsm.Context.Messages.{Message}
use m365_copilot2api_dsm.Context.Atoms.Kinds.{system_of, system_of-append}
use m365_copilot2api_dsm.Context.Window.{
  Window, Outcome, fits, exceeded, sliding_window_detailed, CompactSettings, maybe_compact,
}
use m365_copilot2api_dsm.Context.Window.Pinned.{window_keeps_system}

-- What the function makes of a window that fits.
abbrev of_window :
    CompactSettings
    → (List Message → Option String)
    → (String → Message)
    → List Message
    → Window
    → Option (List Message × Bool)
of_window cfg summarize summary_of ms w =
    if not w.truncated || is_empty w.dropped
    then some (ms, false)
    else if not cfg.enabled
    then some (w.kept, false)
    else if ltb w.dropped_tokens (if cfg.min_tokens == 0 then 4000 else cfg.min_tokens)
    then some (w.kept, false)
    else elim (summarize w.dropped) [
      | none ↦ some (w.kept, false)
      | some text ↦ some (summary_of text ∷ w.kept, true)
    ]

-- The messages are the conversation or those of the window, or those of the window with the summary of
-- what it drops before them.
abbrev pub Compacts :
    (List Message → Option String)
    → (String → Message)
    → List Message
    → Window
    → List Message
    → Bool
    → Type 0
Compacts summarize summary_of ms w out compacted =
    ((out ≡ ms) × (compacted ≡ false))
    ⊎ ((out ≡ w.kept) × (compacted ≡ false))
    ⊎ ((text : String) × (summarize w.dropped ≡ some text)
        × (out ≡ summary_of text ∷ w.kept)
        × (compacted ≡ true))

abbrev IsCompacted :
    (List Message → Option String)
    → (String → Message)
    → List Message
    → Window
    → Option (List Message × Bool)
    → Type 0
IsCompacted summarize summary_of ms w none = ⊥
IsCompacted summarize summary_of ms w (some (out, compacted)) =
    Compacts summarize summary_of ms w out compacted

of_window-IsCompacted :
    (cfg : CompactSettings) (summarize : List Message → Option String)
    (summary_of : String → Message) (ms : List Message) (w : Window)
    → IsCompacted summarize summary_of ms w (of_window cfg summarize summary_of ms w)
of_window-IsCompacted cfg summarize summary_of ms w =
    if_both result (not w.truncated || is_empty w.dropped) (inl (refl, refl)) (
      if_both result (not cfg.enabled) kept (
        if_both result (ltb w.dropped_tokens (if cfg.min_tokens == 0 then 4000 else cfg.min_tokens))
          kept (summarized (summarize w.dropped) refl)))
  where
    result : Option (List Message × Bool) → Type 0
    result = IsCompacted summarize summary_of ms w

    kept : result (some (w.kept, false))
    kept = inr (inl (refl, refl))

    summarized :
        (o : Option String)
        → summarize w.dropped ≡ o
        → result (elim o [
          | none ↦ some (w.kept, false)
          | some text ↦ some (summary_of text ∷ w.kept, true)
        ])
    summarized none e = kept
    summarized (some text) e = inr (inr (text, e, refl, refl))

-- When the context is compacted, what is sent is the conversation, the messages that the window keeps, or
-- these with the summary of exactly the messages that it drops before them; the flag says which.
maybe_compact-Compacts :
    (cfg : CompactSettings) (summarize : List Message → Option String)
    (summary_of : String → Message) (ms : List Message) (budget : ℕ) {out : List Message}
    {compacted : Bool}
    → maybe_compact cfg summarize summary_of ms budget ≡ some (out, compacted)
    → (w : Window) × (sliding_window_detailed ms budget ≡ fits w)
      × Compacts summarize summary_of ms w out compacted
unfolding maybe_compact
maybe_compact-Compacts cfg summarize summary_of ms budget {out} {compacted} e =
    of_outcome (sliding_window_detailed ms budget) refl
  where
    of_outcome :
        (o : Outcome)
        → sliding_window_detailed ms budget ≡ o
        → (w : Window) × (sliding_window_detailed ms budget ≡ fits w)
          × Compacts summarize summary_of ms w out compacted
    of_outcome (exceeded pinned b) q = let bad = rw (q, maybe_compact) at e in cc
    of_outcome (fits w) q = (
      w,
      q,
      subst (IsCompacted summarize summary_of ms w) (rw (q, maybe_compact) at e)
          (of_window-IsCompacted cfg summarize summary_of ms w),
    )

-- When the context is compacted, the system and developer messages that are sent are all those of the
-- conversation in their order, with the summary before them exactly if the flag says that there is one.
pub maybe_compact_keeps_system :
    (cfg : CompactSettings) (summarize : List Message → Option String)
    (summary_of : String → Message) (ms : List Message) (budget : ℕ) {out : List Message}
    {compacted : Bool}
    → maybe_compact cfg summarize summary_of ms budget ≡ some (out, compacted)
    → ((compacted ≡ false) × (system_of out ≡ system_of ms))
      ⊎ ((compacted ≡ true)
          × (text : String) × (system_of out ≡ system_of (summary_of text ∷ []) ++ system_of ms))
maybe_compact_keeps_system cfg summarize summary_of ms budget e =
    let (w, q, c) = maybe_compact-Compacts cfg summarize summary_of ms budget e in
    let same = window_keeps_system ms budget q in
    elim c [
      | inl (p, n) ↦ inl (n, ap system_of p)
      | inr (inl (p, n)) ↦ inl (n, ap system_of p ∙ same)
      | inr (inr (text, s, p, n)) ↦ inr (
        n,
        text,
        ap system_of p
            ∙ system_of-append (summary_of text ∷ []) w.kept
            ∙ ap (◌++◌ (system_of (summary_of text ∷ []))) same,
      )
    ]
