-- ===== src/Outbound/Reserved.antt =====
-- The blocks of addresses that internal/outbound/ssrf.go does not dial.
use m365_copilot2api_dsm.Prelude.{
  ℕ, ◌+◌, ◌*◌, ◌/◌, ◌<◌, value_or, ◌≡◌, refl, Bool, false, ◌&&◌, ◌||◌, Option, some, String, List,
  [], ◌∷◌, leb, ◌==◌, if◌then◌else◌, arith,
}
use m365_copilot2api_dsm.Outbound.Addresses.{to4, is_unsafe_ip, dial_control, allowed, blocked}

abbrev pub value : ℕ → ℕ → ℕ → ℕ → ℕ
value a b c d = ((a * 256 + b) * 256 + c) * 256 + d

-- The blocks that are not public, each by the quotient of its addresses by `2 ^ (32 - length)`:
-- 0.0.0.0/8, 10.0.0.0/8, 127.0.0.0/8, 100.64.0.0/10, 172.16.0.0/12, 169.254.0.0/16, 192.168.0.0/16 and
-- 224.0.0.0/4.
unfoldable pub is_reserved : ℕ → Bool
is_reserved n =
    n / 16_777_216 == 0
    || n / 16_777_216 == 10
    || n / 16_777_216 == 127
    || n / 4_194_304 == 401
    || n / 1_048_576 == 2753
    || n / 65_536 == 43_518
    || n / 65_536 == 49_320
    || n / 268_435_456 == 14

reorder :
    (loop ten p172 p192 local link multi unspecified shared zeros : Bool)
    → link ≡ (link && multi)
    → unspecified ≡ (unspecified && zeros)
    → (loop || (ten || p172 || p192) || local || link || multi || unspecified || (shared || zeros))
      ≡ (zeros || ten || loop || shared || p172 || local || p192 || multi)
reorder loop ten p172 p192 local link multi unspecified shared zeros h k = ground arith

-- A test of a number written with two digits is one of both digits.
four_by : (a b : ℕ) → b < 256 → (a * 4 + b / 64 == 401) ≡ (a == 100 && leb 64 b && leb b 127)
four_by a b h = ground arith

sixteen_by : (a b : ℕ) → b < 256 → (a * 16 + b / 16 == 2753) ≡ (a == 172 && b / 16 == 1)
sixteen_by a b h = ground arith

link_local_by : (a b : ℕ) → b < 256 → (a * 256 + b == 43_518) ≡ (a == 169 && b == 254)
link_local_by a b h = ground arith

private_by : (a b : ℕ) → b < 256 → (a * 256 + b == 49_320) ≡ (a == 192 && b == 168)
private_by a b h = ground arith

-- An address of four bytes is unsafe when it lies in one of the blocks.
is_unsafe_ip-is_reserved :
    (a b c d : ℕ)
    → a < 256
    → b < 256
    → c < 256
    → d < 256
    → is_unsafe_ip (some (a ∷ b ∷ c ∷ d ∷ [])) ≡ is_reserved (value a b c d)
unfolding is_unsafe_ip is_reserved to4
is_unsafe_ip-is_reserved a b c d pa pb pc pd =
    let e24 : value a b c d / 16_777_216 ≡ a = omega arith in
    let e22 : value a b c d / 4_194_304 ≡ a * 4 + b / 64 = omega arith in
    let e20 : value a b c d / 1_048_576 ≡ a * 16 + b / 16 = omega arith in
    let e16 : value a b c d / 65_536 ≡ a * 256 + b = omega arith in
    let e28 : value a b c d / 268_435_456 ≡ a / 16 = omega arith in
    rw
      (
        e24,
        e22,
        e20,
        e16,
        e28,
        four_by a b pb,
        sixteen_by a b pb,
        link_local_by a b pb,
        private_by a b pb,
      )
      (reorder (a == 127) (a == 10) (a == 172 && b / 16 == 1) (a == 192 && b == 168)
        (a == 169 && b == 254) (a == 224 && b == 0 && c == 0) (a / 16 == 14)
        (a == 0 && b == 0 && c == 0 && d == 0) (a == 100 && leb 64 b && leb b 127) (a == 0)
        (ground arith) (ground arith))

-- The sixteen bytes that `ParseIP` gives for four.
abbrev pub mapped : ℕ → ℕ → ℕ → ℕ → List ℕ
mapped a b c d = 0 ∷ 0 ∷ 0 ∷ 0 ∷ 0 ∷ 0 ∷ 0 ∷ 0 ∷ 0 ∷ 0 ∷ 255 ∷ 255 ∷ a ∷ b ∷ c ∷ d ∷ []

mapped-unsafe :
    (a b c d : ℕ) → is_unsafe_ip (some (mapped a b c d)) ≡ is_unsafe_ip (some (a ∷ b ∷ c ∷ d ∷ []))
unfolding is_unsafe_ip to4
mapped-unsafe a b c d = refl

-- Where private addresses are not allowed, a connection to an address of four bytes, in the form of
-- sixteen bytes that `ParseIP` gives, is refused if and only if the address lies in one of the eight
-- blocks that are not public.
pub dial_control-lem :
    (split_host : String → Option String) (parse_ip : String → Option (List ℕ)) (address : String)
    (a b c d : ℕ)
    → a < 256
    → b < 256
    → c < 256
    → d < 256
    → parse_ip (value_or address (split_host address)) ≡ some (mapped a b c d)
    → dial_control false split_host parse_ip address
      ≡ (if is_reserved (value a b c d) then blocked address else allowed)
unfolding dial_control
dial_control-lem split_host parse_ip address a b c d pa pb pc pd e =
    rw (e, mapped-unsafe a b c d, is_unsafe_ip-is_reserved a b c d pa pb pc pd) refl
