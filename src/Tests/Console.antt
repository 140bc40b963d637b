-- ===== src/Tests/Console.antt =====
-- The text screen of kernel/src/vga.c and kernel/src/kprintf.c, 80 by 25.
use foxtail.Common.{ℕ, ◌≡◌, refl, ap, ◌∙◌, false, List, [], ◌∷◌, arith, ok, ◌>>=◌}
use foxtail.Console.{Console, print}
use foxtail.Console.Cursor.{OnScreen}
use foxtail.Console.Numbers.{digits_loop, reverse_loop, kprint_uint32_dec}
use foxtail.Console.Format.{
  VaArg, word, string, expand, convert, kprint_uint32_hex, hex_len, hex_loop, string_at,
  vkprintf_lem, vkprintf-OnScreen,
}

abbrev screen : ℕ → ℕ → Console
screen row col = record { width = 80; height = 25; row = row; col = col; cells = λ q. q }

at_start : OnScreen (screen 3 0)
at_start = record { row = omega arith; col = omega arith; size = omega arith }

-- "%x%d", a backspace and "%s"
abbrev format : List ℕ
format = b'%' ∷ b'x' ∷ b'%' ∷ b'd' ∷ 8 ∷ b'%' ∷ b's' ∷ []

abbrev args : List VaArg
args = word 175 ∷ word 7 ∷ string (b'!' ∷ []) ∷ []

-- The numbers in hexadecimal and in decimal.
expanded : expand (λ p. 0) format args false ≡ ok (b'A' ∷ b'F' ∷ b'7' ∷ 8 ∷ b'!' ∷ [])
unfolding convert kprint_uint32_hex hex_len hex_loop kprint_uint32_dec digits_loop reverse_loop
    string_at
expanded = refl

vkprintf-OnScreen_example : OnScreen (print (b'A' ∷ b'F' ∷ b'7' ∷ 8 ∷ b'!' ∷ []) (screen 3 0))
vkprintf-OnScreen_example =
    vkprintf-OnScreen (λ p. 0) format args (screen 3 0)
      (print (b'A' ∷ b'F' ∷ b'7' ∷ 8 ∷ b'!' ∷ []) (screen 3 0)) at_start
      (vkprintf_lem (λ p. 0) format args false (screen 3 0)
        ∙ ap (λ r. r >>= λ text. ok (print text (screen 3 0))) expanded)

last_digit : kprint_uint32_dec 1507 (λ _. 0) 100 103 ≡ b'7'
unfolding kprint_uint32_dec
last_digit = refl
