-- ===== src/Text/Decimal.antt =====
-- `%d` of fmt.
use rag_ai_system.Prelude.{
  ℕ, zero, suc, ◌+◌, ◌/◌, ◌%◌, ◌≡◌, refl, [], ◌∷◌, ◌++◌, ltb, if◌then◌else◌, ℤ, pos, negsuc,
}
use rag_ai_system.Text.{Text, codes}

-- A number has at most as many digits as its value plus one, so `decimal` gives it that much fuel.
unfoldable pub digits : ℕ → ℕ → Text
digits zero n = []
digits (suc fuel) n =
    let more = digits fuel (n / 10) ++ (48 + n % 10) ∷ [] in
    if ltb n 10 then (48 + n) ∷ [] else more

unfoldable pub decimal : ℕ → Text
unfolding digits
decimal n = digits (suc n) n

unfoldable pub decimal_int : ℤ → Text
unfolding decimal
decimal_int (pos n) = decimal n
decimal_int (negsuc n) = b'-' ∷ decimal (suc n)

decimal_test : decimal 1207 ≡ codes "1207"
unfolding decimal
decimal_test = refl
