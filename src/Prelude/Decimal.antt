-- ===== src/Prelude/Decimal.antt =====
-- `String(n)` and `${n}` of a natural number.
use queue_worker_kit.Prelude.Tests.{if◌then◌else◌, ltb}
use queue_worker_kit.Prelude.Lists.{All, All-append}
use queue_worker_kit.Prelude.Strings.{Text}
use Prim.Native.Nat.{ℕ, zero, suc, ◌+◌, ◌-◌, ◌*◌, ◌/◌, ◌%◌, ◌≤◌, ◌<◌}
use mathlib.Core.Path.{◌≡◌, refl, sym, ◌∙◌, ap}
use mathlib.Core.List.{[], ◌∷◌, ◌++◌, foldl, foldl-append}
use native.Mathlib.Omega.{arith}

-- The digits of a number below ten to the power of the fuel; one call per digit.
decimal_from : ℕ → ℕ → Text
decimal_from zero n = []
decimal_from (suc fuel) n =
    let front = decimal_from fuel (n / 10) in
    (if ltb n 10 then [] else front) ++ (b'0' + n % 10) ∷ []

unfoldable pub decimal : ℕ → Text
unfolding decimal_from
decimal n = decimal_from (suc n) n

abbrev pub IsDigit : ℕ → Type 0
IsDigit c = (b'0' ≤ c) × (c ≤ b'9')

abbrev digit_step : ℕ → ℕ → ℕ
digit_step acc c = acc * 10 + (c - b'0')

-- `Number(s)` on a text of digits.
unfoldable pub digits_value : Text → ℕ
digits_value s = foldl digit_step 0 s

decimal_from-All : (fuel n : ℕ) → All IsDigit (decimal_from fuel n)
unfolding decimal_from
decimal_from-All zero n = tt
decimal_from-All (suc fuel) n = ground (
  arith,
  decimal_from-All fuel (n / 10),
  All-append IsDigit (decimal_from fuel (n / 10)) ((b'0' + n % 10) ∷ []),
)

pub decimal-All : (n : ℕ) → All IsDigit (decimal n)
unfolding decimal
decimal-All n = decimal_from-All (suc n) n

append-cons : (s : Text) (c : ℕ) → (d : ℕ) × (r : Text) × (s ++ c ∷ [] ≡ d ∷ r)
append-cons [] c = (c, [], refl)
append-cons (d ∷ s) c = (d, s ++ c ∷ [], refl)

-- A decimal text is not empty.
pub decimal-cons : (n : ℕ) → (c : ℕ) × (s : Text) × (decimal n ≡ c ∷ s)
unfolding decimal decimal_from
decimal-cons n = append-cons (if ltb n 10 then [] else decimal_from n (n / 10)) (b'0' + n % 10)

digits_value-snoc :
    (s : Text) (c : ℕ) → digits_value (s ++ c ∷ []) ≡ digits_value s * 10 + (c - b'0')
unfolding digits_value
digits_value-snoc s c = rw foldl-append

digits_value-nil : digits_value [] ≡ 0
unfolding digits_value
digits_value-nil = refl

digits_value-decimal_from : (fuel n : ℕ) → n < fuel → digits_value (decimal_from fuel n) ≡ n
unfolding decimal_from
digits_value-decimal_from zero n h = absurd (omega arith)
digits_value-decimal_from (suc fuel) n h = ground (
  arith,
  digits_value-nil,
  digits_value-decimal_from fuel (n / 10),
  digits_value-snoc (decimal_from fuel (n / 10)) (b'0' + n % 10),
  digits_value-snoc [] (b'0' + n % 10),
)

-- Printing a number and reading the digits gives the number back.
pub digits_value-decimal : (n : ℕ) → digits_value (decimal n) ≡ n
unfolding decimal
digits_value-decimal n = digits_value-decimal_from (suc n) n (omega arith)

pub decimal_injective : (m n : ℕ) → decimal m ≡ decimal n → m ≡ n
decimal_injective m n e = sym (digits_value-decimal m) ∙ ap digits_value e ∙ digits_value-decimal n
