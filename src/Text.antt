-- ===== src/Text.antt =====
-- Go strings as the game code uses them: lists of Unicode code points, with `len` in bytes,
-- `strings.ToUpper` and equality. (Library code of Go, as internal/puzzles/wordle/game.go and
-- internal/game call it.)
use nytrpg.Prelude.{
  Bool, List, [], arith, false, if◌then◌else◌, leb, length, ltb, refl, true, ℕ, ◌&&◌, ◌+◌, ◌-◌,
  ◌==◌, ◌↔◌, ◌∷◌, ◌≡◌,
}

abbrev pub Text : Type 0
Text = List ℕ

unfoldable pub text_eq : Text → Text → Bool
text_eq [] [] = true
text_eq (a ∷ s) (b ∷ t) = a == b && text_eq s t
text_eq _ _ = false

pub text_eq_iff : (s t : Text) → (text_eq s t ≡ true) ↔ (s ≡ t)
unfolding text_eq
text_eq_iff [] [] = (λ _. refl, λ _. refl)
text_eq_iff [] (b ∷ t) = (λ h. cc, λ h. cc)
text_eq_iff (a ∷ s) [] = (λ h. cc, λ h. cc)
text_eq_iff (a ∷ s) (b ∷ t) =
    (λ h. ground (arith, text_eq_iff s t), λ h. ground (arith, text_eq_iff s t))

-- `len(s)`: a code point takes one to four bytes of UTF-8.
abbrev pub utf8_len : ℕ → ℕ
utf8_len c = if ltb c 128 then 1 else if ltb c 2048 then 2 else if ltb c 65536 then 3 else 4

unfoldable pub byte_len : Text → ℕ
byte_len [] = 0
byte_len (c ∷ s) = utf8_len c + byte_len s

-- The two code points outside ASCII that go to an ASCII letter are dotless i and long s. The others
-- stay outside ASCII, and no caller looks at which they become.
abbrev pub upper : ℕ → ℕ
upper c =
    if leb b'a' c && leb c b'z'
    then c - 32
    else if c == 0x131
    then b'I'
    else if c == 0x17f
    then b'S'
    else c

unfoldable pub to_upper : Text → Text
to_upper [] = []
to_upper (c ∷ s) = upper c ∷ to_upper s

-- 'A' <= c && c <= 'Z'
abbrev pub is_letter : ℕ → Bool
is_letter c = leb b'A' c && leb c b'Z'

unfoldable pub is_letters : Text → Bool
is_letters [] = true
is_letters (c ∷ s) = is_letter c && is_letters s

-- For letters, bytes and characters are the same.
pub byte_len-letters : (s : Text) → is_letters s ≡ true → byte_len s ≡ length s
unfolding byte_len is_letters
byte_len-letters [] h = refl
byte_len-letters (c ∷ s) h = ground (arith, byte_len-letters s)
