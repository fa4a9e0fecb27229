-- ===== src/Tests/Issued.antt =====
-- Runs of the model of internal/web/keys.go.
use m365_copilot2api_dsm.Prelude.{
  ◌-◌, ◌*◌, ◌≡◌, refl, true, false, some, String, List, [], ◌∷◌, ◌++◌, second, differs, arith,
}
use m365_copilot2api_dsm.Keys.Store.{ApiKeyRecord, ApiKeyStore, new_key, create, open_api_keys}
use m365_copilot2api_dsm.Keys.Rollback.{Clean, creates, revokes, deletes, alone, perform}
use m365_copilot2api_dsm.Keys.Atomic.{Atomic, perform-Atomic, create_takes_other}
use m365_copilot2api_dsm.Keys.Lifecycle.{Event, edits, uses, run, run-Clean}
use m365_copilot2api_dsm.Keys.Minutes.{Call, granted, made, used, smaller, granted-smaller}
use Prim.Native.String.{◌++◌ as join}

abbrev hash : String → String
hash raw = join "#" raw

abbrev old_key : ApiKeyRecord
old_key = new_key hash "0123456789abcdef0123" "old" 1

abbrev kept : ApiKeyStore
kept = record { keys = old_key ∷ []; disk = old_key ∷ []; dirty = false }

old-Clean : Clean kept.keys
unfolding new_key
old-Clean = (refl, tt)

perform-Atomic_example : Atomic kept (perform hash (λ s. s) (deletes "0123456789abcdef") false kept)
perform-Atomic_example =
    perform-Atomic hash (λ s. s) (deletes "0123456789abcdef") false kept old-Clean

create_takes_other_example :
    (create hash
      (some "aaaa")
      "one"
      2
      false
      (λ t. (create hash (some "bbbb") "two" 3 true alone t).0)
      kept).0.keys
    ≡ kept.keys ++ (new_key hash "aaaa" "one" 2 ∷ [])
create_takes_other_example = create_takes_other hash "aaaa" "bbbb" "one" "two" 2 3 kept old-Clean

-- A file of an old version, with the cleartext of a key.
abbrev left_over : List ApiKeyRecord
left_over = record old_key { raw = "m365_old"; hash = "" } ∷ []

abbrev history : List Event
history =
    edits (creates (some "aaaa") "one" 2) true
    ∷ uses "m365_aaaa" 3
    ∷ edits (revokes "aaaa") false
    ∷ []

run-Clean_example :
    Clean (run hash (λ s. s) (open_api_keys hash true left_over) history).keys
    × Clean (run hash (λ s. s) (open_api_keys hash true left_over) history).disk
run-Clean_example = run-Clean hash (λ s. s) left_over history

abbrev calls : List Call
calls =
    record { key = "a"; limit = 2; now = 1 * second }
    ∷ record { key = "b"; limit = 9; now = 2 * second }
    ∷ record { key = "a"; limit = 2; now = 3 * second }
    ∷ record { key = "a"; limit = 2; now = 4 * second }
    ∷ []

granted-smaller_example : granted [] "a" calls ≡ smaller (made "a" calls) (2 - used 0 "a" [])
granted-smaller_example = granted-smaller 0 2 "a" [] calls (omega arith) tt (
  omega arith,
  λ e. refl,
  omega arith,
  omega arith,
  (
    omega arith,
    λ e. absurd (differs "b" "a" refl e),
    omega arith,
    omega arith,
    (
      omega arith,
      λ e. refl,
      omega arith,
      omega arith,
      (omega arith, λ e. refl, omega arith, omega arith, tt),
    ),
  ),
)
