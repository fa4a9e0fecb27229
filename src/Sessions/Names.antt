-- ===== src/Sessions/Names.antt =====
-- The names that clients give to their sessions in internal/web/session_resolver.go, by tenant.
use Prim.Native.Char.{Char, code, nul}
use Prim.Native.String.{◌++◌ as join}
use text.Mathlib.TextLemmas.{nil-append, cons-append}
use m365_copilot2api_dsm.Prelude.{◌≡◌, ◌≢◌, refl, sym, ap, ◌∙◌, String}
use m365_copilot2api_dsm.Sessions.Store.{explicit_key}

-- No character of a text is NUL: so are the tenants, which are hexadecimal hashes, or "".
unfoldable pub Plain : String → Type 0
Plain String.[] = Unit {0}
Plain (String.◌∷◌ c s) = (code c ≢ 0) × Plain s

key-nil : (id : String) → explicit_key "" id ≡ String.◌∷◌ nul id
unfolding explicit_key
key-nil id = nil-append (join "\0" id) ∙ cons-append nul "" id ∙ ap (String.◌∷◌ nul) (nil-append id)

key-cons :
    (c : Char) (t id : String) → explicit_key (String.◌∷◌ c t) id ≡ String.◌∷◌ c (explicit_key t id)
unfolding explicit_key
key-cons c t id = cons-append c t (join "\0" id)

head_eq : (c d : Char) (s t : String) → String.◌∷◌ c s ≡ String.◌∷◌ d t → c ≡ d
head_eq c d s t e = cc

tail_eq : (c d : Char) (s t : String) → String.◌∷◌ c s ≡ String.◌∷◌ d t → s ≡ t
tail_eq c d s t e = cc

-- A name belongs to one tenant.
pub explicit_key-injective :
    (t u a b : String) → Plain t → Plain u → explicit_key t a ≡ explicit_key u b → (t ≡ u) × (a ≡ b)
unfolding Plain
explicit_key-injective String.[] String.[] a b p q e =
    (refl, tail_eq nul nul a b (sym (key-nil a) ∙ e ∙ key-nil b))
explicit_key-injective String.[] (String.◌∷◌ d u) a b p q e = absurd (
    q.0 (ap code (sym (head_eq nul d a (explicit_key u b) (sym (key-nil a) ∙ e ∙ key-cons d u b)))))
explicit_key-injective (String.◌∷◌ c t) String.[] a b p q e =
    absurd
      (p.0 (ap code (head_eq c nul (explicit_key t a) b (sym (key-cons c t a) ∙ e ∙ key-nil b))))
explicit_key-injective (String.◌∷◌ c t) (String.◌∷◌ d u) a b p q e =
    let same = sym (key-cons c t a) ∙ e ∙ key-cons d u b in
    let (tenants, names) =
      explicit_key-injective t u a b p.1 q.1
        (tail_eq c d (explicit_key t a) (explicit_key u b) same) in
    (cc (head_eq c d (explicit_key t a) (explicit_key u b) same, tenants), names)
