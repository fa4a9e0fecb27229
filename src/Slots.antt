-- ===== src/Slots.antt =====
-- internal/web/account_concurrency.go: `accountConcurrency`, the calls that run for each account.
-- `Acquire` hands out a release function that works once; `held` lists those that have not run, by a
-- number of their own, which the program does not have.
pub mod Limit
use m365_copilot2api_dsm.Prelude.{
  ℕ, suc, ◌+◌, ◌-◌, Bool, true, false, ◌&&◌, Option, none, some, String, List, [], ◌∷◌, ltb, leb,
  ◌==◌, str_eq, if◌then◌else◌, Dict, lookup, insert, delete, value_or,
}

pub record Slot : Type 0 where
  pub number : ℕ
  pub account : String

pub record Slots : Type 0 where
  pub limit : ℕ
  pub inflight : Dict ℕ
  pub held : List Slot
  pub issued : ℕ

-- `newAccountConcurrency`, with the limit that the settings give.
unfoldable pub new_slots : ℕ → Slots
new_slots limit = record { limit = limit; inflight = []; held = []; issued = 0 }

-- `Inflight`, and `c.inflight[accountID]`.
unfoldable pub running : Slots → String → ℕ
running s id = value_or 0 (lookup id s.inflight)

-- `Available`.
unfoldable pub available : Slots → String → Bool
unfolding running
available s id = if str_eq id "" then true else ltb (running s id) s.limit

-- What `Acquire` returns: a release function that does nothing, or one for a slot.
pub data Release : Type 0 where
  no_op : Release
  slot : ℕ → Release

-- One round of the loop of `Acquire`; `none` is waiting for a change. A caller that gives up while it
-- waits has changed nothing.
unfoldable pub try_acquire : Slots → String → Slots × Option Release
unfolding running
try_acquire s id =
    if str_eq id ""
    then (s, some no_op)
    else if ltb (running s id) s.limit
    then (
      record s {
        inflight = insert id (running s id + 1) s.inflight;
        held = record { number = s.issued; account = id } ∷ s.held;
        issued = s.issued + 1;
      },
      some (slot s.issued),
    )
    else (s, none)

unfoldable pub find_held : ℕ → List Slot → Option String
find_held n [] = none
find_held n (h ∷ hs) = if h.number == n then some h.account else find_held n hs

unfoldable pub drop_held : ℕ → List Slot → List Slot
drop_held n [] = []
drop_held n (h ∷ hs) = if h.number == n then hs else h ∷ drop_held n hs

-- The body of `once.Do` for a slot of an account.
unfoldable pub give_back : Slots → ℕ → String → Slots
unfolding running drop_held
give_back s n id = record s {
  inflight =
      if leb (running s id) 1
      then delete id s.inflight
      else insert id (running s id - 1) s.inflight;
  held = drop_held n s.held;
}

-- The release function; a second run of it does nothing.
unfoldable pub release : Slots → Release → Slots
unfolding give_back find_held
release s no_op = s
release s (slot n) = elim (find_held n s.held) [ none ↦ s | some id ↦ give_back s n id ]
