-- ===== src/Outbound.antt =====
-- internal/outbound/pool.go and health.go: the pool of outbound proxies. Times are instants that the
-- caller reads; an entry's connections are known by its URL.
pub mod Addresses
pub mod Reserved
pub mod Rotation
pub mod Backoff
pub mod Members
pub mod Replay
use m365_copilot2api_dsm.Prelude.{
  ℕ, zero, suc, ◌+◌, ◌-◌, ◌*◌, ◌%◌, ◌^◌, Bool, true, false, ◌&&◌, ◌||◌, not, Option, none, some,
  String, List, [], ◌∷◌, ◌++◌, ltb, leb, str_eq, if◌then◌else◌, second, minute, mentions, length,
  get_elem?, is_empty, is_zero, mul_64, longer,
}

pub data Health : Type 0 where
  unset reachable cooling unreachable upstream_error : Health

pub record Entry : Type 0 where
  pub raw : String
  pub failures : ℕ
  pub cooldown : ℕ
  pub last_check : ℕ
  pub latency : ℕ
  pub last_error : String
  pub health : Health

pub record Pool : Type 0 where
  pub entries : List Entry
  pub next : ℕ

unfoldable pub new_entry : String → Entry
new_entry raw = record {
  raw = raw;
  failures = 0;
  cooldown = 0;
  last_check = 0;
  latency = 0;
  last_error = "";
  health = unset;
}

unfoldable pub has_raw : String → List Entry → Bool
has_raw raw [] = false
has_raw raw (e ∷ es) = str_eq e.raw raw || has_raw raw es

-- The loop of `NewPool`; `accepts` says whether `New` takes a URL. The map `seen` holds the URLs of
-- the entries made so far.
unfoldable pub add_entries : (String → Bool) → List Entry → List String → Option (List Entry)
unfolding new_entry has_raw
add_entries accepts es [] = some es
add_entries accepts es (v ∷ vs) =
    let skip = add_entries accepts es vs in
    let keep = add_entries accepts (es ++ new_entry v ∷ []) vs in
    if str_eq v "" || has_raw v es then skip else if accepts v then keep else none

unfoldable pub new_pool : (String → Bool) → List String → Option Pool
unfolding add_entries
new_pool accepts raws = elim (add_entries accepts [] raws) [
  | none ↦ none
  | some es ↦ some (record { entries = es; next = 0 })
]

-- The loop of `pick`: the first `i` from the given one, of `left` many, whose entry is not cooling.
unfoldable pub first_ready : List Entry → ℕ → ℕ → ℕ → ℕ → Option ℕ
first_ready es next now zero i = none
first_ready es next now (suc left) i = elim (get_elem? es ((next + i) % length es)) [
  | none ↦ none
  | some e ↦ if ltb now e.cooldown then first_ready es next now left (suc i) else some i
]

-- `pick`: the next entry that is not cooling, or else the next one.
unfoldable pub pick : Pool → ℕ → Pool × Option Entry
unfolding first_ready
pick p now =
    if is_empty p.entries
    then (p, none)
    else elim (first_ready p.entries p.next now (length p.entries) 0) [
      | some i ↦ (
        record p { next = (p.next + i + 1) % length p.entries },
        get_elem? p.entries ((p.next + i) % length p.entries),
      )
      | none ↦ (
        record p { next = (p.next + 1) % length p.entries },
        get_elem? p.entries (p.next % length p.entries),
      )
    ]

-- `isProxyError` of an error with this text.
unfoldable pub is_proxy_error : String → Bool
is_proxy_error m =
    if mentions m "quota_429"
      || mentions m "overload_503"
      || mentions m "auth_expired_401"
      || mentions m "forbidden_403"
      || mentions m "upstream 429"
      || mentions m "upstream 401"
      || mentions m "upstream 403"
      || mentions m "upstream 503"
    then false
    else if mentions m "429" && mentions m "upstream"
    then false
    else if mentions m "socks"
        || mentions m "no such host"
        || (mentions m "dns" && not (mentions m "limited"))
        || mentions m "tls"
        || mentions m "certificate"
        || mentions m "x509"
        || mentions m "handshake"
        || mentions m "timeout"
        || mentions m "deadline exceeded"
        || mentions m "connection refused"
        || mentions m "connection reset"
        || mentions m "network is unreachable"
        || mentions m "ws_read_timeout"
        || mentions m "ws_handshake"
    then true
    else mentions m "proxy connect" || mentions m "socks5"

-- `proxyBaseDuration`.
unfoldable pub proxy_base_duration : String → ℕ
proxy_base_duration m =
    if mentions m "socks"
    then 30 * second
    else if mentions m "no such host" || mentions m "dns"
    then 30 * second
    else if mentions m "tls" || mentions m "certificate" || mentions m "x509"
    then 30 * second
    else if mentions m "handshake"
    then 15 * second
    else if mentions m "timeout" || mentions m "deadline"
    then 30 * second
    else if mentions m "connection refused"
        || mentions m "connection reset"
        || mentions m "broken pipe"
    then 15 * second
    else 15 * second

-- The doublings of `mark` after a number of failures in a row, and the cooldown for a number of
-- doublings.
abbrev pub shift_of : ℕ → ℕ
shift_of failures = if ltb 6 (failures - 1) then 6 else failures - 1

shifted : ℕ → ℕ → ℕ
shifted base shift =
    let d = mul_64 base (2 ^ shift) in
    let capped = if longer d (5 * minute) || is_zero d then 5 * minute else d in
    if ltb capped (5 * second) then 5 * second else capped

unfoldable pub backoff : ℕ → ℕ → ℕ
unfolding shifted
backoff base failures = shifted base (shift_of failures)

-- What `mark` does to the entry that it finds; `none` is a call that went through.
unfoldable pub mark_entry : Entry → Option String → ℕ → Entry
mark_entry e none now = record e { failures = 0; cooldown = 0; last_error = ""; health = reachable }
mark_entry e (some m) now =
    if is_proxy_error m
    then record e {
      failures = e.failures + 1;
      cooldown = now + backoff (proxy_base_duration m) (e.failures + 1);
      last_error = m;
      health = cooling;
    }
    else record e { last_error = m }

-- The first entry with a URL is changed.
unfoldable pub update : String → (Entry → Entry) → List Entry → List Entry
update raw f [] = []
update raw f (e ∷ es) = if str_eq e.raw raw then f e ∷ es else e ∷ update raw f es

-- `mark`, which is also `MarkProxyFailure`.
unfoldable pub mark : Pool → String → Option String → ℕ → Pool
unfolding update mark_entry
mark p raw err now = record p { entries = update raw (λ e. mark_entry e err now) p.entries }

-- `setHealth`.
unfoldable pub set_health : Pool → String → Health → Pool
unfolding update
set_health p raw h = record p { entries = update raw (λ e. record e { health = h }) p.entries }

-- `Remove`. The index of the next entry stays.
unfoldable pub remove_entry : String → List Entry → List Entry
remove_entry raw [] = []
remove_entry raw (e ∷ es) = if str_eq e.raw raw then es else e ∷ remove_entry raw es

unfoldable pub remove : Pool → String → Pool
unfolding remove_entry
remove p raw = record p { entries = remove_entry raw p.entries }

-- What a health probe finds: no answer, or a status code.
pub data Probe : Type 0 where
  no_answer : String → Probe
  answered : ℕ → Probe

pub data CheckResult : Type 0 where
  healthy no_location upstream_failed target_failed : CheckResult
  failed : String → CheckResult

-- `Check`, from the probe's outcome on, for a URL of the pool and for any.
after_probe : Pool → String → Probe → ℕ → Pool × CheckResult
after_probe p raw (no_answer m) now =
    (set_health (mark p raw (some m) now) raw unreachable, failed m)
after_probe p raw (answered code) now =
    let marked = mark p raw none now in
    if leb 500 code
    then (set_health marked raw upstream_error, upstream_failed)
    else (set_health marked raw reachable, if leb 400 code then target_failed else healthy)

unfoldable pub check : Pool → String → Probe → ℕ → Pool × CheckResult
unfolding after_probe
check p raw probe now =
    if has_raw raw p.entries then after_probe p raw probe now else (p, no_location)
