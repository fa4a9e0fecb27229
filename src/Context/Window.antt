-- ===== src/Context/Window.antt =====
-- internal/web/context_budget.go: `slidingWindowDetailed`, and auto_compact.go: `maybeCompactContext`.
pub mod Choice
pub mod Fit
pub mod Pinned
pub mod Compact
use m365_copilot2api_dsm.Prelude.{
  ℕ, zero, suc, ◌+◌, ◌-◌, Bool, true, false, ◌&&◌, ◌||◌, not, Option, none, some, String, List, [],
  ◌∷◌, ◌++◌, ltb, leb, ◌==◌, if◌then◌else◌, length, is_empty,
}
use m365_copilot2api_dsm.Context.Messages.{Message, overhead_tokens}
use m365_copilot2api_dsm.Context.Atoms.Kinds.{is_system}
use m365_copilot2api_dsm.Context.Atoms.{
  Atom, AtomKind, kind_system, kind_user, kind_tool, kind_assist, kind_anchor, build_atoms_fast,
}

abbrev pub is_tool : AtomKind → Bool
is_tool kind_tool = true
is_tool _ = false

abbrev pub is_anchor : AtomKind → Bool
is_anchor kind_anchor = true
is_anchor _ = false

unfoldable pub all_tools : List Atom → Bool
all_tools [] = true
all_tools (a ∷ atoms) = is_tool a.kind && all_tools atoms

-- An atom with the mark whether it is pinned: a system atom, the first anchor, or a tool atom with
-- only tool atoms behind it. `seen` says that an anchor stood before.
pub record Marked : Type 0 where
  pub atom : Atom
  pub marked : Bool

unfoldable pub pin : Bool → List Atom → List Marked
unfolding all_tools
pin seen [] = []
pin seen (a ∷ atoms) =
    record {
      atom = a;
      marked =
          is_system a.kind || (is_anchor a.kind && not seen) || (is_tool a.kind && all_tools atoms);
    }
    ∷ pin (seen || is_anchor a.kind) atoms

-- The tokens of the marked atoms, and of all.
unfoldable pub marked_tokens : List Marked → ℕ
marked_tokens [] = 0
marked_tokens (p ∷ ps) = (if p.marked then p.atom.tokens else 0) + marked_tokens ps

unfoldable pub total_tokens : List Atom → ℕ
total_tokens [] = 0
total_tokens (a ∷ atoms) = a.tokens + total_tokens atoms

-- What the loop over the atoms that are not pinned, from the last to the first, has decided.
pub record Filled : Type 0 where
  pub selected : List Marked
  pub remaining : ℕ
  pub dropped : List Message
  pub dropped_tokens : ℕ

abbrev fill_one : Marked → Filled → Filled
fill_one p f =
    if p.marked
    then record f { selected = p ∷ f.selected }
    else if leb p.atom.tokens f.remaining
    then record f {
      selected = record { atom = p.atom; marked = true } ∷ f.selected;
      remaining = f.remaining - p.atom.tokens;
    }
    else record f {
      selected = p ∷ f.selected;
      dropped = f.dropped ++ p.atom.msgs;
      dropped_tokens = f.dropped_tokens + p.atom.tokens;
    }

unfoldable pub fill : ℕ → List Marked → Filled
fill remaining [] = record {
  selected = [];
  remaining = remaining;
  dropped = [];
  dropped_tokens = 0;
}
fill remaining (p ∷ ps) = fill_one p (fill remaining ps)

unfoldable pub selected_msgs : List Marked → List Message
selected_msgs [] = []
selected_msgs (p ∷ ps) = (if p.marked then p.atom.msgs else []) ++ selected_msgs ps

unfoldable pub count_selected : List Marked → ℕ
count_selected [] = 0
count_selected (p ∷ ps) = (if p.marked then 1 else 0) + count_selected ps

unfoldable pub last_msgs : List Atom → List Message
last_msgs [] = []
last_msgs (a ∷ []) = a.msgs
last_msgs (a ∷ b ∷ atoms) = last_msgs (b ∷ atoms)

pub record Window : Type 0 where
  pub kept : List Message
  pub dropped : List Message
  pub dropped_tokens : ℕ
  pub truncated : Bool

pub data Outcome : Type 0 where
  fits : Window → Outcome
  -- `context_length_exceeded`: the pinned tokens and the budget.
  exceeded : ℕ → ℕ → Outcome

abbrev whole : List Message → Window
whole ms = record { kept = ms; dropped = []; dropped_tokens = 0; truncated = false }

-- The end of the function: the selected messages, or else those of the last atom.
abbrev pub close : List Atom → Filled → Window
close atoms f =
    let out = selected_msgs f.selected in
    let kept = if is_empty out then last_msgs atoms else out in
    record {
      kept = kept;
      dropped = f.dropped;
      dropped_tokens = f.dropped_tokens;
      truncated =
          is_empty out
          || ltb (count_selected f.selected) (length atoms)
          || not (is_empty f.dropped);
    }

abbrev pub pinned_tokens : List Atom → ℕ
pinned_tokens atoms = overhead_tokens + marked_tokens (pin false atoms)

-- The function on the atoms that it builds.
unfoldable pub window : List Message → List Atom → ℕ → Outcome
unfolding fill selected_msgs count_selected last_msgs total_tokens marked_tokens pin
window ms atoms budget =
    if is_empty atoms
    then fits (whole ms)
    else if leb (total_tokens atoms + overhead_tokens) budget
    then fits (whole ms)
    else if ltb budget (pinned_tokens atoms)
    then exceeded (pinned_tokens atoms) budget
    else fits (close atoms (fill (budget - pinned_tokens atoms) (pin false atoms)))

-- A budget that is not positive is 1024.
abbrev pub effective_budget : ℕ → ℕ
effective_budget budget = if budget == 0 then 1024 else budget

unfoldable pub sliding_window_detailed : List Message → ℕ → Outcome
unfolding window build_atoms_fast
sliding_window_detailed ms budget = window ms (build_atoms_fast ms) (effective_budget budget)

-- `slidingWindow`.
unfoldable pub sliding_window : List Message → ℕ → Option (List Message × Bool)
unfolding sliding_window_detailed
sliding_window ms budget = elim (sliding_window_detailed ms budget) [
  | fits w ↦ some (w.kept, w.truncated)
  | exceeded pinned b ↦ none
]

-- The settings of `maybeCompactContext`, and the message that it makes of a summary.
pub record CompactSettings : Type 0 where
  pub enabled : Bool
  pub min_tokens : ℕ

-- `maybeCompactContext`; `summarize` is the upstream call, with `none` where it fails, and `summary_of`
-- makes its text a system message.
unfoldable pub maybe_compact :
    CompactSettings
    → (List Message → Option String)
    → (String → Message)
    → List Message
    → ℕ
    → Option (List Message × Bool)
unfolding sliding_window_detailed
maybe_compact cfg summarize summary_of ms budget = elim (sliding_window_detailed ms budget) [
  | exceeded pinned b ↦ none
  | fits w ↦
      if not w.truncated || is_empty w.dropped
      then some (ms, false)
      else if not cfg.enabled
      then some (w.kept, false)
      else if ltb w.dropped_tokens (if cfg.min_tokens == 0 then 4000 else cfg.min_tokens)
      then some (w.kept, false)
      else elim (summarize w.dropped) [
        | none ↦ some (w.kept, false)
        | some text ↦ some (summary_of text ∷ w.kept, true)
      ]
]
