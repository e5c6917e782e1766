-- ===== src/Core/Patterns.antt =====
-- The regular expressions of actenon/execution/effects.py: a fixed prefix and lower-case hex digits.
use Prim.Native.Char.{Char, code}
use Prim.Native.Nat.{ℕ, suc}
use Prim.Native.String.{String, [], ◌∷◌}
use actenon_kernel.Prelude.{Bool, false, true, ◌&&◌, ◌||◌, leb, nat_eq, ◌==◌}
use actenon_kernel.Json.{Items, cons, nil, str}

abbrev is_hex_digit : Char → Bool
is_hex_digit c = (leb 48 (code c) && leb (code c) 57) || (leb 97 (code c) && leb (code c) 102)

-- `[0-9a-f]*`
abbrev all_hex : String → Bool
all_hex [] = true
all_hex (c ∷ s) = is_hex_digit c && all_hex s

-- `list(text)`
unfoldable pub letters : String → Items
letters [] = nil
letters (c ∷ s) = cons (str (c ∷ [])) (letters s)

-- the number of characters of a text
unfoldable pub chars : String → ℕ
chars [] = 0
chars (c ∷ s) = suc (chars s)

-- `prefix[0-9a-f]*` with a test of the number of digits
unfoldable pub prefixed_hex : String → (ℕ → Bool) → String → Bool
unfolding chars
prefixed_hex [] count_ok text = all_hex text && count_ok (chars text)
prefixed_hex (p ∷ prefix) count_ok [] = false
prefixed_hex (p ∷ prefix) count_ok (c ∷ text) =
    let rest = prefixed_hex prefix count_ok text in code p == code c && rest
