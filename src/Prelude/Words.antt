-- ===== src/Prelude/Words.antt =====
-- The texts that the program searches: `strings.ToLower` and `strings.Contains` on code points.
use Prim.Native.Nat.{ℕ, ◌+◌}
use Prim.Native.Char.{code}
use Prim.Native.String.{String}
use mathlib.Core.Bool.{Bool, true, false, ◌&&◌, ◌||◌}
use mathlib.Core.List.{List, [], ◌∷◌}
use mathlib.Core.Path.{◌≡◌, refl}
use m365_copilot2api_dsm.Prelude.Tests.{leb, ◌==◌, if◌then◌else◌}

abbrev pub codes : String → List ℕ
codes String.[] = []
codes (String.◌∷◌ c s) = code c ∷ codes s

-- Lower case of ASCII, and of the two other letters whose lower case is ASCII (U+0130, U+212A).
-- Other letters stay as they are: none of them equals a character that the program searches for.
abbrev pub lower_code : ℕ → ℕ
lower_code c =
    if leb b'A' c && leb c b'Z'
    then c + 32
    else if c == 0x130
    then b'i'
    else if c == 0x212a
    then b'k'
    else c

unfoldable pub to_lower : List ℕ → List ℕ
to_lower [] = []
to_lower (c ∷ s) = lower_code c ∷ to_lower s

unfoldable pub starts_with : List ℕ → List ℕ → Bool
starts_with s [] = true
starts_with [] (p ∷ ps) = false
starts_with (c ∷ s) (p ∷ ps) = c == p && starts_with s ps

unfoldable pub contains : List ℕ → List ℕ → Bool
unfolding starts_with
contains [] p = starts_with [] p
contains (c ∷ s) p = starts_with (c ∷ s) p || contains s p

-- `strings.Contains(strings.ToLower(s), p)`.
unfoldable pub mentions : String → String → Bool
unfolding to_lower contains
mentions s p = contains (to_lower (codes s)) (codes p)

mentions_case : mentions "x509: Certificate expired" "certificate" ≡ true
unfolding mentions
mentions_case = refl
