-- ===== src/Outbound/Addresses.antt =====
-- internal/outbound/ssrf.go: which addresses may be dialed. A `net.IP` is its bytes, 4 or 16 of them; the
-- methods of `net.IP` are those of Go's library.
use m365_copilot2api_dsm.Prelude.{
  ℕ, ◌/◌, ◌%◌, length, value_or, Bool, true, false, ◌&&◌, ◌||◌, Option, none, some, String, List,
  [], ◌∷◌, leb, ◌==◌, if◌then◌else◌,
}

-- `To4`: four bytes, or sixteen that stand for them.
unfoldable pub to4 : List ℕ → Option (ℕ × ℕ × ℕ × ℕ)
to4 (a ∷ b ∷ c ∷ d ∷ []) = some (a, b, c, d)
to4 (a0 ∷ a1 ∷ a2 ∷ a3 ∷ a4 ∷ a5 ∷ a6 ∷ a7 ∷ a8 ∷ a9 ∷ p ∷ q ∷ a ∷ b ∷ c ∷ d ∷ []) =
    if a0 == 0
      && a1 == 0
      && a2 == 0
      && a3 == 0
      && a4 == 0
      && a5 == 0
      && a6 == 0
      && a7 == 0
      && a8 == 0
      && a9 == 0
      && p == 255
      && q == 255
    then some (a, b, c, d)
    else none
to4 _ = none

abbrev pub bytes_equal : List ℕ → List ℕ → Bool
bytes_equal [] [] = true
bytes_equal (a ∷ xs) (b ∷ ys) = a == b && bytes_equal xs ys
bytes_equal _ _ = false

-- A test of the four bytes, or of an address that has sixteen by its first two.
abbrev pub by_family : (ℕ → ℕ → Bool) → (ℕ → ℕ → Bool) → Option (ℕ × ℕ × ℕ × ℕ) → List ℕ → Bool
by_family four sixteen (some (a, b, c, d)) ip = four a b
by_family four sixteen none (a ∷ b ∷ ip) = length ip == 14 && sixteen a b
by_family four sixteen none _ = false

abbrev pub loopback_6 : List ℕ
loopback_6 = 0 ∷ 0 ∷ 0 ∷ 0 ∷ 0 ∷ 0 ∷ 0 ∷ 0 ∷ 0 ∷ 0 ∷ 0 ∷ 0 ∷ 0 ∷ 0 ∷ 0 ∷ 1 ∷ []

abbrev pub unspecified_6 : List ℕ
unspecified_6 = 0 ∷ 0 ∷ 0 ∷ 0 ∷ 0 ∷ 0 ∷ 0 ∷ 0 ∷ 0 ∷ 0 ∷ 0 ∷ 0 ∷ 0 ∷ 0 ∷ 0 ∷ 0 ∷ []

abbrev pub is_loopback : List ℕ → Bool
is_loopback ip = elim (to4 ip) [ some (a, b, c, d) ↦ a == 127 | none ↦ bytes_equal ip loopback_6 ]

abbrev pub is_unspecified : List ℕ → Bool
is_unspecified ip = elim (to4 ip) [
  | some (a, b, c, d) ↦ a == 0 && b == 0 && c == 0 && d == 0
  | none ↦ bytes_equal ip unspecified_6
]

-- The masks of a byte are quotients: `b & 0xf0 == 16` is `b / 16 == 1`.
abbrev pub is_private : List ℕ → Bool
is_private ip =
    by_family (λ a b. a == 10 || (a == 172 && b / 16 == 1) || (a == 192 && b == 168))
      (λ a b. a / 2 == 126) (to4 ip) ip

abbrev pub is_link_local_unicast : List ℕ → Bool
is_link_local_unicast ip =
    by_family (λ a b. a == 169 && b == 254) (λ a b. a == 254 && b / 64 == 2) (to4 ip) ip

abbrev pub is_multicast : List ℕ → Bool
is_multicast ip = by_family (λ a b. a / 16 == 14) (λ a b. a == 255) (to4 ip) ip

-- `224.0.0.x` and `ff?2::`, within the multicast addresses.
abbrev pub is_link_local_multicast : List ℕ → Bool
is_link_local_multicast ip = elim (to4 ip) [
  | some (a, b, c, d) ↦ a == 224 && b == 0 && c == 0
  | none ↦ by_family (λ a b. false) (λ a b. a == 255 && b % 16 == 2) none ip
]

-- The two ranges that `IsUnsafeIP` adds for four bytes.
abbrev pub is_shared : List ℕ → Bool
is_shared ip =
    by_family (λ a b. (a == 100 && leb 64 b && leb b 127) || a == 0) (λ a b. false) (to4 ip) ip

-- `IsUnsafeIP`; `none` is an address that does not parse.
unfoldable pub is_unsafe_ip : Option (List ℕ) → Bool
is_unsafe_ip none = true
is_unsafe_ip (some ip) =
    is_loopback ip
    || is_private ip
    || is_link_local_unicast ip
    || is_link_local_multicast ip
    || is_multicast ip
    || is_unspecified ip
    || is_shared ip

pub data DialAnswer : Type 0 where
  allowed : DialAnswer
  blocked : String → DialAnswer

-- `DialControl`: whether the operator allows private addresses, `SplitHostPort` and `ParseIP` of the
-- `net` package, where the host is trimmed of its brackets, and the address.
unfoldable pub dial_control :
    Bool → (String → Option String) → (String → Option (List ℕ)) → String → DialAnswer
dial_control private_allowed split_host parse_ip address =
    if private_allowed then allowed else elim (parse_ip (value_or address (split_host address))) [
      | none ↦ allowed
      | some ip ↦ if is_unsafe_ip (some ip) then blocked address else allowed
    ]
