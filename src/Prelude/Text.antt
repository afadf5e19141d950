-- ===== src/Prelude/Text.antt =====
-- Text as its bytes. A literal is read as the bytes of an ASCII string.
use Prim.Native.Char.{code}
use Prim.Native.String.{String}
use fand.Prelude.{ℕ, ◌≡◌, ◌↔◌, refl, Bool, true, false, ◌&&◌, ◌==◌, List, [], ◌∷◌, arith}

abbrev pub Text : Type 0
Text = List ℕ

abbrev pub codes : String → Text
codes String.[] = []
codes (String.◌∷◌ c s) = code c ∷ codes s

-- `==` of two strings.
unfoldable pub same_text : Text → Text → Bool
same_text [] [] = true
same_text [] (b ∷ t) = false
same_text (a ∷ s) [] = false
same_text (a ∷ s) (b ∷ t) = a == b && same_text s t

pub same_text_iff : (s t : Text) → (same_text s t ≡ true) ↔ (s ≡ t)
unfolding same_text
same_text_iff [] [] = (λ _. refl, λ _. refl)
same_text_iff [] (b ∷ t) = (λ h. cc, λ h. cc)
same_text_iff (a ∷ s) [] = (λ h. cc, λ h. cc)
same_text_iff (a ∷ s) (b ∷ t) = ground (arith, same_text_iff s t)
