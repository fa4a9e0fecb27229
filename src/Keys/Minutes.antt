-- ===== src/Keys/Minutes.antt =====
-- The requests of a minute in internal/web/keys.go.
use m365_copilot2api_dsm.Prelude.{
  ℕ, ◌+◌, ◌-◌, ◌/◌, ◌<◌, ◌≡◌, refl, sym, ap, subst, ◌∙◌, Bool, true, false, Option, none, some,
  String, List, [], ◌∷◌, ltb, leb, ◌==◌, str_eq, if◌then◌else◌, Dict, lookup, insert, Distinct,
  insert-Distinct, lookup-insert, length, minute, sign_bit, arith, inl, inr, Bool-cases, eq_iff,
  if_both, ◌||◌, ◌&&◌, Option-cases,
}
use m365_copilot2api_dsm.Keys.Access.{
  MinuteCounter, purge_rates, current_counter, fresh_counter, allow, max_rate_keys,
}

-- The requests that a key has made in a minute, by its counter.
abbrev counted : ℕ → Option MinuteCounter → ℕ
counted bucket none = 0
counted bucket (some c) = if c.minute == bucket then c.n else 0

unfoldable pub used : ℕ → String → Dict MinuteCounter → ℕ
used bucket key w = counted bucket (lookup key w)

lookup-purge_none :
    (bucket : ℕ) (key : String) (w : Dict MinuteCounter)
    → lookup key w ≡ none
    → lookup key (purge_rates bucket w) ≡ none
unfolding purge_rates lookup
lookup-purge_none bucket key [] h = refl
lookup-purge_none bucket key ((k, c) ∷ w) h = ground (arith, h, lookup-purge_none bucket key w)

purge-Distinct :
    (bucket : ℕ) (w : Dict MinuteCounter) → Distinct w → Distinct (purge_rates bucket w)
unfolding purge_rates
purge-Distinct bucket [] h = tt
purge-Distinct bucket ((k, c) ∷ w) h =
    if_both Distinct (c.minute == bucket)
      (lookup-purge_none bucket k w h.0, purge-Distinct bucket w h.1) (purge-Distinct bucket w h.1)

used-purge :
    (bucket : ℕ) (key : String) (w : Dict MinuteCounter)
    → Distinct w
    → used bucket key (purge_rates bucket w) ≡ used bucket key w
unfolding used purge_rates lookup
used-purge bucket key [] h = refl
used-purge bucket key ((k, c) ∷ w) h =
    ground (arith, h.0, used-purge bucket key w h.1, lookup-purge_none bucket k w h.0, eq_iff k key)

used-insert :
    (bucket : ℕ) (key asked : String) (c : MinuteCounter) (w : Dict MinuteCounter)
    → c.minute ≡ bucket
    → used bucket asked (insert key c w) ≡ (if str_eq key asked then c.n else used bucket asked w)
unfolding used
used-insert bucket key asked c w h = ground (arith, h, lookup-insert key asked c w)

-- A window whose entries are all right for a minute.
record Counts (bucket : ℕ) (w : Dict MinuteCounter) (x : Dict MinuteCounter × MinuteCounter)
    (key : String) : Type 0 where
  distinct : Distinct x.0
  this : x.1.minute ≡ bucket
  count : x.1.n ≡ used bucket key w
  same : (asked : String) → used bucket asked x.0 ≡ used bucket asked w

fresh-Counts :
    (bucket : ℕ) (key : String) (w : Dict MinuteCounter)
    → Distinct w
    → used bucket key w ≡ 0
    → Counts bucket w (fresh_counter w key bucket) key
fresh-Counts bucket key w h none_yet =
    let kept = if ltb max_rate_keys (length w) then purge_rates bucket w else w in
    let distinct = if_both Distinct (ltb max_rate_keys (length w)) (purge-Distinct bucket w h) h in
    let same : (asked : String) → used bucket asked kept ≡ used bucket asked w = λ asked.
      if_both (λ v. used bucket asked v ≡ used bucket asked w) (ltb max_rate_keys (length w))
        (used-purge bucket asked w h) refl in
    record {
      distinct = insert-Distinct key _ kept distinct;
      this = refl;
      count = sym none_yet;
      same = λ asked.
          used-insert bucket key asked (record { minute = bucket; n = 0 }) kept refl
          ∙ ground (arith, same asked, none_yet, eq_iff key asked);
    }

current-Counts :
    (bucket : ℕ) (key : String) (w : Dict MinuteCounter)
    → Distinct w
    → Counts bucket w (current_counter w key bucket (lookup key w)) key
current-Counts bucket key w h = elim (Option-cases (lookup key w)) [
  | inl e ↦ rw e (fresh-Counts bucket key w h (unfold used in rw e refl))
  | inr (c, e) ↦ elim (Bool-cases (c.minute == bucket)) [
    | inl q ↦
        rw (e, q)
          (record {
            distinct = h;
            this = ground (arith, q);
            count = unfold used in rw (e, q) refl;
            same = λ asked. refl;
          })
    | inr q ↦ rw (e, q) (fresh-Counts bucket key w h (unfold used in rw (e, q) refl))
  ]
]

-- A request in a minute counts for its key, if it is let through.
allow-used :
    (w : Dict MinuteCounter) (key asked : String) (limit now : ℕ)
    → 0 < limit
    → limit < sign_bit
    → Distinct w
    → Distinct (allow w key limit now).0
      × ((allow w key limit now).1 ≡ ltb (used (now / minute) key w) limit)
      × (used (now / minute) asked (allow w key limit now).0
          ≡ used (now / minute) asked w
            + (if str_eq key asked
                then (if ltb (used (now / minute) key w) limit then 1 else 0)
                else 0))
unfolding allow
allow-used w key asked limit now pos small h =
    let bucket = now / minute in
    let x = current_counter w key bucket (lookup key w) in
    let v = current-Counts bucket key w h in
    let limited : (limit == 0 || leb sign_bit limit) ≡ false = ground arith in
    elim (Bool-cases (leb limit x.1.n)) [
      | inl q ↦
          rw (limited, q)
            (v.distinct, ground (arith, q, v.count), v.same asked ∙ ground (arith, q, v.count))
      | inr q ↦
          rw (limited, q)
            (
              insert-Distinct key _ x.0 v.distinct,
              ground (arith, q, v.count),
              used-insert bucket key asked (record x.1 { n = x.1.n + 1 }) x.0 v.this
                  ∙ ground (arith, q, v.count, v.same asked, eq_iff key asked),
            )
    ]

-- A request of a key, with the limit of the key and the time.
pub record Call : Type 0 where
  pub key : String
  pub limit : ℕ
  pub now : ℕ

abbrev one_if : Bool → ℕ
one_if true = 1
one_if false = 0

-- The requests of a key that are let through, in a run, and those that it makes.
unfoldable pub granted : Dict MinuteCounter → String → List Call → ℕ
granted w key [] = 0
granted w key (c ∷ calls) =
    let (left, ok) = allow w c.key c.limit c.now in
    one_if (str_eq c.key key && ok) + granted left key calls

abbrev pub made : String → List Call → ℕ
made key [] = 0
made key (c ∷ calls) = one_if (str_eq c.key key) + made key calls

-- All requests are in one minute, the key has its limit in all of its own, and each other key has some.
abbrev pub InMinute : ℕ → String → ℕ → List Call → Type 0
InMinute bucket key limit [] = Unit {0}
InMinute bucket key limit (c ∷ calls) =
    (c.now / minute ≡ bucket)
    × (c.key ≡ key → c.limit ≡ limit)
    × (0 < c.limit)
    × (c.limit < sign_bit)
    × InMinute bucket key limit calls

abbrev pub smaller : ℕ → ℕ → ℕ
smaller a b = if leb a b then a else b

-- A request of the key itself.
own_call :
    (limit u v m g : ℕ) (ok : Bool)
    → ok ≡ ltb u limit
    → v ≡ u + (if ltb u limit then 1 else 0)
    → g ≡ smaller m (limit - v)
    → one_if ok + g ≡ smaller (1 + m) (limit - u)
own_call limit u v m g ok h c e = ground arith

-- A request of another key.
other_call :
    (limit u v m g : ℕ)
    → v ≡ u
    → g ≡ smaller m (limit - v)
    → one_if false + g ≡ smaller (one_if false + m) (limit - u)
other_call limit u v m g c e = ground arith

-- In one minute a key with a limit is let through as often as it asks, up to its limit less what it
-- has used of the minute, however many requests of other keys come between and whatever entries they
-- make the window drop.
pub granted-smaller :
    (bucket limit : ℕ) (key : String) (w : Dict MinuteCounter) (calls : List Call)
    → 0 < limit
    → Distinct w
    → InMinute bucket key limit calls
    → granted w key calls ≡ smaller (made key calls) (limit - used bucket key w)
unfolding granted
granted-smaller bucket limit key w [] pos h within = ground arith
granted-smaller bucket limit key w (c ∷ calls) pos h within =
    let (time, own, some_limit, small, rest) = within in
    let (distinct, ok, count) = allow-used w c.key key c.limit c.now some_limit small h in
    let later =
      granted-smaller bucket limit key (allow w c.key c.limit c.now).0 calls pos distinct rest in
    elim (Bool-cases (str_eq c.key key)) [
      | inl q ↦
          let same = (eq_iff c.key key).0 q in
          let limits = own same in
          rw q (
            own_call limit (used bucket key w) (used bucket key (allow w c.key c.limit c.now).0)
              (made key calls) (granted (allow w c.key c.limit c.now).0 key calls)
              (allow w c.key c.limit c.now).1 (cc (ok, same, limits, time))
              (sym (ap (λ b. used b key (allow w c.key c.limit c.now).0) time)
                ∙ count
                ∙ rw (q, time, same, limits) refl)
              later)
      | inr q ↦
          let kept : used bucket key (allow w c.key c.limit c.now).0 ≡ used bucket key w =
            subst (λ b. used b key (allow w c.key c.limit c.now).0 ≡ used b key w + 0) time
              (count ∙ rw q refl)
            ∙ omega arith in
          rw q (
            other_call limit (used bucket key w) (used bucket key (allow w c.key c.limit c.now).0)
              (made key calls) (granted (allow w c.key c.limit c.now).0 key calls) kept later)
    ]
