-- ===== src/Sessions/Loaded.antt =====
-- The store of internal/web/session_resolver.go after `loadLocked`.
use m365_copilot2api_dsm.Prelude.{
  ℕ, ◌≡◌, ◌≢◌, refl, sym, subst, ◌∙◌, some, List, [], ◌∷◌, inl, inr, lookup, if_both, if◌then◌else◌,
  Bool-cases, lookup-empty, String,
}
use m365_copilot2api_dsm.Sessions.Store.{
  SessionBinding, SessionResolver, explicit_key, reindex, load, is_older, open_session_resolver,
}
use m365_copilot2api_dsm.Sessions.Names.{Plain}
use m365_copilot2api_dsm.Sessions.Stored.{Inv}
use m365_copilot2api_dsm.Sessions.Targets.{Others, reindex-Inv, lookup_written}
use m365_copilot2api_dsm.Sessions.Kept.{open-Inv}

-- Two sessions with distinct ids and, where they have names, distinct names.
abbrev pub Apart : SessionBinding → SessionBinding → Type 0
Apart s t =
    (s.session_id ≢ t.session_id)
    × (s.explicit_id ≢ ""
        → t.explicit_id ≢ ""
        → explicit_key s.tenant s.explicit_id ≢ explicit_key t.tenant t.explicit_id)

abbrev pub AllApart : SessionBinding → List SessionBinding → Type 0
AllApart s [] = Unit {0}
AllApart s (t ∷ held) = Apart s t × AllApart s held

-- What a store that is written to the file has: its sessions are apart, and no tenant has a NUL.
abbrev pub Saved : List SessionBinding → Type 0
Saved [] = Unit {0}
Saved (s ∷ held) = Plain s.tenant × AllApart s held × Saved held

-- A session is apart from all that are stored.
abbrev Clear : SessionResolver → SessionBinding → Type 0
Clear r s = (k : String) (t : SessionBinding) → lookup k r.sessions ≡ some t → Apart t s

abbrev AllClear : SessionResolver → List SessionBinding → Type 0
AllClear r [] = Unit {0}
AllClear r (s ∷ held) = Clear r s × AllClear r held

Clear-Others : (r : SessionResolver) (s : SessionBinding) → Inv r → Clear r s → Others r s
Clear-Others r s v clear k t q held = (
  v.keyed k t held,
  v.plain k t held,
  λ ne. (v.named k t held ne, λ ns same. (clear k t held).1 ne ns (sym same)),
)

reindex-AllClear :
    (r : SessionResolver) (s : SessionBinding) (held : List SessionBinding)
    → AllClear r held
    → AllApart s held
    → AllClear (reindex r s) held
unfolding reindex
reindex-AllClear r s [] clear apart = tt
reindex-AllClear r s (t ∷ held) (clear, others) (apart, rest) = (
  λ k u found. elim (lookup_written k s.session_id s u r.sessions found) [
    | inl (_, same) ↦ subst (λ x. Apart x t) same apart
    | inr (_, old) ↦ clear k u old
  ],
  reindex-AllClear r s held others rest,
)

load-Inv :
    (r : SessionResolver) (now : ℕ) (held : List SessionBinding)
    → Inv r
    → Saved held
    → AllClear r held
    → Inv (load r now held)
unfolding load
load-Inv r now [] v saved clear = v
load-Inv r now (s ∷ held) v (plain, apart, saved) (first, clear) =
    elim (Bool-cases (is_older now r.ttl s)) [
      | inl q ↦ rw q (load-Inv r now held v saved clear)
      | inr q ↦ rw q (
          load-Inv (reindex r s) now held
            (reindex-Inv r s v.distinct plain (Clear-Others r s v first)) saved
            (reindex-AllClear r s held clear apart))
    ]

empty-AllClear :
    (ttl context : ℕ) (held : List SessionBinding)
    → AllClear (open_session_resolver ttl context) held
unfolding open_session_resolver
empty-AllClear ttl context [] = tt
empty-AllClear ttl context (s ∷ held) =
    (λ k t found. absurd (cc (found, lookup-empty k)), empty-AllClear ttl context held)

-- A store that is opened on what another one wrote keeps the invariant.
pub loaded-Inv :
    (ttl context now : ℕ) (held : List SessionBinding)
    → Saved held
    → Inv (load (open_session_resolver ttl context) now held)
loaded-Inv ttl context now held saved =
    load-Inv (open_session_resolver ttl context) now held (open-Inv ttl context) saved
      (empty-AllClear ttl context held)

load-limit :
    (r : SessionResolver) (now : ℕ) (held : List SessionBinding)
    → (load r now held).max_sessions ≡ r.max_sessions
unfolding load reindex
load-limit r now [] = refl
load-limit r now (s ∷ held) =
    let first = if is_older now r.ttl s then r else reindex r s in
    load-limit first now held
    ∙ if_both (λ (x : SessionResolver). x.max_sessions ≡ r.max_sessions) (is_older now r.ttl s) refl
        refl

pub loaded-limit :
    (ttl context now : ℕ) (held : List SessionBinding)
    → (load (open_session_resolver ttl context) now held).max_sessions ≡ 1000
unfolding open_session_resolver
loaded-limit ttl context now held = load-limit (open_session_resolver ttl context) now held
