-- ===== src/Config/Env/Numerals.antt =====
-- Which texts a variable of an integer accepts (`intFromEnv` of src/config/env.ts).
use queue_worker_kit.Prelude.{
  All, IsDigit, digits_value, ℕ, zero, suc, ◌≤◌, ◌==◌, Text, all, [], ◌∷◌, true, false, Bool-cases,
  Option, none, some, ◌≡◌, ◌≢◌, ◌↔◌, ◌⊎◌, inl, inr, refl, sym, ◌∙◌, subst, arith,
}
use queue_worker_kit.Values.{Number, nat}
use queue_worker_kit.Jobs.Types.{success}
use queue_worker_kit.Config.Schema.{Builders, BuildersLaws}
use queue_worker_kit.Config.Env.Variables.{
  is_digit, int_from_env, is_integer_text, number_of, minus, is_safe_integer, at_least, at_most,
  is_digits,
}
use queue_worker_kit.Config.Env.Integers.{int_from_env_iff, is_digits-All}

-- A text that writes a natural number: digits, at least one of them; for zero also after a minus.
abbrev pub Numeral : Text → ℕ → Type 0
Numeral s k =
    ((s ≢ []) × All IsDigit s × (digits_value s ≡ k))
    ⊎ ((t : Text) × (s ≡ 45 ∷ t) × (t ≢ []) × All IsDigit t × (digits_value t ≡ 0) × (k ≡ 0))

all-IsDigit : (s : Text) → all is_digit s ≡ true → All IsDigit s
all-IsDigit [] h = tt
all-IsDigit (c ∷ s) h = ground (arith, all-IsDigit s)

is_digits-Numeral : (s : Text) → is_digits s ≡ true → (s ≢ []) × All IsDigit s
is_digits-Numeral [] h = cc
is_digits-Numeral (c ∷ s) h = ((λ e. cc), all-IsDigit (c ∷ s) h)

Numeral-is_digits : (s : Text) → s ≢ [] → All IsDigit s → is_digits s ≡ true
Numeral-is_digits [] h digits = absurd (h refl)
Numeral-is_digits (c ∷ s) h digits = is_digits-All c s digits

abbrev Accepted : ℕ → ℕ → Text → Number → Type 0
Accepted lo hi s n =
    (is_integer_text s ≡ true)
    × (number_of s ≡ n)
    × (is_safe_integer n ≡ true)
    × (at_least lo n ≡ true)
    × (at_most hi n ≡ true)

abbrev Written : ℕ → ℕ → Text → Number → Type 0
Written lo hi s n = (k : ℕ) × Numeral s k × (n ≡ nat k) × (lo ≤ k) × (k ≤ hi)

minus-nat : (lo v : ℕ) (n : Number) → minus v ≡ n → at_least lo n ≡ true → (v ≡ 0) × (n ≡ nat 0)
minus-nat lo zero n h low = (refl, sym h)
minus-nat lo (suc v) n h low = let false_is = subst (λ x. at_least lo x ≡ true) (sym h) low in cc

in_bounds :
    (lo hi k : ℕ) (n : Number)
    → n ≡ nat k
    → at_least lo n ≡ true
    → at_most hi n ≡ true
    → (lo ≤ k) × (k ≤ hi)
in_bounds lo hi k n same low top = ground (arith, same)

Accepted-Written : (lo hi : ℕ) (s : Text) (n : Number) → Accepted lo hi s n → Written lo hi s n
unfolding is_integer_text number_of
Accepted-Written lo hi [] n (shape, value, safe, low, top) = cc
Accepted-Written lo hi (c ∷ s) n (shape, value, safe, low, top) = elim (Bool-cases (c == 45)) [
  | inl y ↦
      let (some_digit, digits) = is_digits-Numeral s (rw y at shape) in
      let (zero_is, same) = minus-nat lo (digits_value s) n (rw y at value) low in
      let (least, most) = in_bounds lo hi 0 n same low top in
      let dash : c ≡ 45 = ground arith in
      (0, inr (s, ground (arith, dash), some_digit, digits, zero_is, refl), same, least, most)
  | inr other_unit ↦
      let (some_digit, digits) = is_digits-Numeral (c ∷ s) (rw other_unit at shape) in
      let same : n ≡ nat (digits_value (c ∷ s)) = sym (rw other_unit at value) in
      let (least, most) = in_bounds lo hi (digits_value (c ∷ s)) n same low top in
      (digits_value (c ∷ s), inl (some_digit, digits, refl), same, least, most)
]

digit_no_dash : (c : ℕ) → IsDigit c → (c == 45) ≡ false
digit_no_dash c h = ground arith

Numeral-shape :
    (s : Text) (k : ℕ) → Numeral s k → (is_integer_text s ≡ true) × (number_of s ≡ nat k)
unfolding is_integer_text number_of
Numeral-shape [] k (inl (h, digits, value)) = absurd (h refl)
Numeral-shape (c ∷ s) k (inl (h, digits, value)) =
    let shape = Numeral-is_digits (c ∷ s) h digits in
    rw (digit_no_dash c digits.0) (shape, rw value refl)
Numeral-shape s k (inr (t, e, h, digits, value, zero_is)) =
    let shape = Numeral-is_digits t h digits in rw (e, zero_is) (shape, rw value refl)

Written-Accepted :
    (lo hi : ℕ) (s : Text) (n : Number)
    → hi ≤ 9007199254740991
    → Written lo hi s n
    → Accepted lo hi s n
Written-Accepted lo hi s n safe (k, numeral, same, low, top) =
    let (shape, value) = Numeral-shape s k numeral in
    rw same (shape, value, ground arith, ground arith, ground arith)

module _ {z : Builders} (laws : BuildersLaws z) where
  -- A variable of an integer, whose bounds are safe, is given its default exactly where it is
  -- absent. Otherwise it is accepted exactly if its text is made of digits and of at least one,
  -- and their value is in the bounds, and that value is what is loaded; a minus is accepted only
  -- before a zero. So a blank text is refused, and is neither a zero nor the default.
  pub int_variable_iff :
      (lo hi d : ℕ) (r : Option Text) (n : Number)
      → hi ≤ 9007199254740991
      → (z.with_default (nat d) (int_from_env z lo hi) r ≡ success n) ↔ (
          ((r ≡ none) × (n ≡ nat d))
          ⊎ ((s : Text) × (r ≡ some s)
              × ((k : ℕ) × Numeral s k × (n ≡ nat k) × (lo ≤ k) × (k ≤ hi))))
  int_variable_iff lo hi d none n safe = (
    λ h. inl (refl, ground (arith, laws.default_absent (nat d) (int_from_env z lo hi), h)),
    λ e. elim e [
      | inl (_, e) ↦ rw e (laws.default_absent (nat d) (int_from_env z lo hi))
      | inr e ↦ cc e.1
    ],
  )
  int_variable_iff lo hi d (some t) n safe = (
    λ h.
        let (s, e, shape, value, safe_is, low, top) =
          (int_from_env_iff laws lo hi (some t) n).0 (sym (laws.default_present _ _ t) ∙ h) in
        inr (s, e, Accepted-Written lo hi s n (shape, value, safe_is, low, top)),
    λ e. elim e [
      | inl (e, _) ↦ cc
      | inr (s, e, written) ↦
          let (shape, value, safe_is, low, top) = Written-Accepted lo hi s n safe written in
          laws.default_present _ _ t
          ∙ (int_from_env_iff laws lo hi (some t) n).1 (s, e, shape, value, safe_is, low, top)
    ],
  )
