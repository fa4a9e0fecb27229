-- ===== src/Keys/Access.antt =====
-- internal/web/keys.go: `keyRateWindow` and the whitelists. The addresses of the `net` package, their
-- parsers and their comparison are arguments, and so are the texts of the `strings` package.
use m365_copilot2api_dsm.Prelude.{
  ℕ, ◌+◌, ◌/◌, Bool, true, false, ◌||◌, Option, none, some, String, List, [], ◌∷◌, ltb, leb, ◌==◌,
  str_eq, if◌then◌else◌, Dict, lookup, insert, length, is_empty, minute, sign_bit,
}

pub record MinuteCounter : Type 0 where
  pub minute : ℕ
  pub n : ℕ

abbrev pub max_rate_keys : ℕ
max_rate_keys = 4096

-- The entries of other minutes go.
unfoldable pub purge_rates : ℕ → Dict MinuteCounter → Dict MinuteCounter
purge_rates bucket [] = []
purge_rates bucket ((k, c) ∷ rest) =
    let others = purge_rates bucket rest in if c.minute == bucket then (k, c) ∷ others else others

-- The counter of a key in this minute, and the window with it.
abbrev pub fresh_counter : Dict MinuteCounter → String → ℕ → Dict MinuteCounter × MinuteCounter
fresh_counter w key bucket =
    let kept = if ltb max_rate_keys (length w) then purge_rates bucket w else w in
    let c : MinuteCounter = record { minute = bucket; n = 0 } in (insert key c kept, c)

abbrev pub current_counter :
    Dict MinuteCounter → String → ℕ → Option MinuteCounter → Dict MinuteCounter × MinuteCounter
current_counter w key bucket none = fresh_counter w key bucket
current_counter w key bucket (some c) =
    if c.minute == bucket then (w, c) else fresh_counter w key bucket

-- `allow`, at a time in nanoseconds; the limit is the bit pattern of an int64.
unfoldable pub allow : Dict MinuteCounter → String → ℕ → ℕ → Dict MinuteCounter × Bool
allow w key limit now =
    let (counted, c) = current_counter w key (now / minute) (lookup key w) in
    if limit == 0 || leb sign_bit limit
    then (w, true)
    else if leb limit c.n
    then (counted, false)
    else (insert key (record c { n = c.n + 1 }) counted, true)

-- What `net` and `strings` give: an address of a text, whether a range has it, and equality.
pub record Net : Type 1 where
  pub Ip : Type 0
  pub parse_ip : String → Option Ip
  pub range_has : String → Ip → Bool
  pub equal : Ip → Ip → Bool
  pub trim : String → String
  pub has_slash : String → Bool

module _ (net : Net) where
  open net use {Ip, parse_ip, range_has, equal, trim, has_slash}

  abbrev pub same_ip : Ip → Option Ip → Bool
  same_ip ip none = false
  same_ip ip (some allowed) = equal allowed ip

  -- One entry of the list.
  abbrev pub entry_allows : Ip → String → Bool
  entry_allows ip entry =
      if str_eq entry ""
      then false
      else if has_slash entry
      then range_has entry ip
      else same_ip ip (parse_ip entry)

  unfoldable pub any_allows : Ip → List String → Bool
  any_allows ip [] = false
  any_allows ip (entry ∷ entries) = entry_allows ip (trim entry) || any_allows ip entries

  abbrev pub listed : Option Ip → List String → Bool
  listed none whitelist = false
  listed (some ip) whitelist = any_allows ip whitelist

  unfoldable pub ip_allowed : String → List String → Bool
  ip_allowed client whitelist =
      if is_empty whitelist then true else listed (parse_ip (trim client)) whitelist

-- `normal` is `strings.ToLower(strings.TrimSpace(...))`.
unfoldable pub names_model : (String → String) → String → List String → Bool
names_model normal m [] = false
names_model normal m (w ∷ ws) = str_eq (normal w) m || names_model normal m ws

unfoldable pub model_allowed : (String → String) → String → List String → Bool
model_allowed normal model whitelist =
    if is_empty whitelist then true else names_model normal (normal model) whitelist
