-- ===== src/Config/Env/Integers.antt =====
-- The integers of the environment, and the lists and tests of its other variables.
use queue_worker_kit.Prelude.{
  All, IsDigit, decimal, decimal-All, decimal-cons, digits_value-decimal, ℕ, ◌≤◌, Text, any,
  text_eq, List, [], ◌∷◌, Bool, true, Option, none, some, ◌≡◌, ◌↔◌, refl, sym, ◌∙◌, subst, arith,
}
use queue_worker_kit.Values.{Number, nat, negative, other}
use queue_worker_kit.Jobs.Types.{success}
use queue_worker_kit.Config.Schema.{Schema, Builders, BuildersLaws}
use queue_worker_kit.Config.Env.Variables.{
  int_from_env, is_integer_text, number_of, is_safe_integer, at_least, at_most, is_digits,
}

-- A number of the environment is a natural number in the range of its variable.
abbrev pub Within : ℕ → ℕ → Number → Type 0
Within lo hi n = (k : ℕ) × (n ≡ nat k) × (lo ≤ k) × (k ≤ hi)

in_range-Within :
    (lo hi : ℕ) (n : Number) → at_least lo n ≡ true → at_most hi n ≡ true → Within lo hi n
in_range-Within lo hi (nat k) h k' = (k, refl, ground arith, ground arith)
in_range-Within lo hi (negative k) h k' = cc
in_range-Within lo hi (other s) h k' = cc

pub is_digits-All : (c : ℕ) (s : Text) → All IsDigit (c ∷ s) → is_digits (c ∷ s) ≡ true
is_digits-All c [] h = ground arith
is_digits-All c (d ∷ s) h = ground (arith, is_digits-All d s h.1)

is_integer_text-decimal : (n : ℕ) → is_integer_text (decimal n) ≡ true
unfolding is_integer_text
is_integer_text-decimal n =
    let (c, s, e) = decimal-cons n in
    let digits = rw e at (decimal-All n) in rw e (ground (arith, is_digits-All c s digits))

number_of-decimal : (n : ℕ) → number_of (decimal n) ≡ nat n
unfolding number_of
number_of-decimal n =
    let (c, s, e) = decimal-cons n in
    let digits = rw e at (decimal-All n) in
    let value = rw e at (digits_value-decimal n) in rw e (ground (arith, value))

module _ {z : Builders} (laws : BuildersLaws z) where
  -- The integers that a variable accepts: a text of digits, perhaps signed, that is safe and in
  -- the range.
  pub int_from_env_iff :
      (lo hi : ℕ) (r : Option Text) (n : Number)
      → (int_from_env z lo hi r ≡ success n) ↔ (
          (s : Text) × (r ≡ some s)
          × (is_integer_text s ≡ true)
          × (number_of s ≡ n)
          × (is_safe_integer n ≡ true)
          × (at_least lo n ≡ true)
          × (at_most hi n ≡ true))
  unfolding int_from_env
  int_from_env_iff lo hi r n = (
    λ h.
        let (h1, top) = (laws.refine_iff _ _ _ r n).0 h in
        let (h2, low) = (laws.refine_iff _ _ _ r n).0 h1 in
        let (h3, safe) = (laws.refine_iff _ _ _ r n).0 h2 in
        let (s, h4, value) = (laws.transform_iff _ _ r n).0 h3 in
        let (h5, shape) = (laws.refine_iff _ _ _ r s).0 h4 in
        (s, (laws.string_iff _ s r).0 h5, shape, value, safe, low, top),
    λ (s, given, shape, value, safe, low, top). (laws.refine_iff _ _ _ r n).1 (
      (laws.refine_iff _ _ _ r n).1 (
        (laws.refine_iff _ _ _ r n).1 (
          (laws.transform_iff _ _ r n).1
              (s, (laws.refine_iff _ _ _ r s).1 ((laws.string_iff _ s r).1 given, shape), value),
          safe,
        ),
        low,
      ),
      top,
    ),
  )

  pub default_holds :
      {A : Type 0} (P : A → Type 0) (d : A) (s : Schema A) (r : Option Text) (a : A)
      → P d
      → ((t : Text) → s (some t) ≡ success a → P a)
      → z.with_default d s r ≡ success a
      → P a
  default_holds P d s none a hd hs h = subst P (ground (arith, laws.default_absent d s, h)) hd
  default_holds P d s (some t) a hd hs h = hs t (sym (laws.default_present d s t) ∙ h)

  Within-int :
      (lo hi : ℕ) (t : Text) (n : Number)
      → int_from_env z lo hi (some t) ≡ success n
      → Within lo hi n
  Within-int lo hi t n h =
      let (_, _, _, _, _, low, top) = (int_from_env_iff lo hi (some t) n).0 h in
      in_range-Within lo hi n low top

  pub Within-default :
      (lo hi d : ℕ) (r : Option Text) (n : Number)
      → lo ≤ d
      → d ≤ hi
      → z.with_default (nat d) (int_from_env z lo hi) r ≡ success n
      → Within lo hi n
  Within-default lo hi d r n low top h =
      default_holds (Within lo hi) (nat d) (int_from_env z lo hi) r n (d, refl, low, top)
        (λ t. Within-int lo hi t n) h

  pub refined :
      {A : Type 0} (p : A → Bool) (d : A) (m : Option Text) (s : Schema A) (r : Option Text) (a : A)
      → p d ≡ true
      → z.with_default d (z.refine p m s) r ≡ success a
      → p a ≡ true
  refined p d m s r a hd h =
      default_holds (λ a. p a ≡ true) d (z.refine p m s) r a hd
        (λ t k. ((laws.refine_iff p m s (some t) a).0 k).1) h

  pub listed :
      (names : List Text) (m : Option Text) (d : Text) (r : Option Text) (a : Text)
      → any (text_eq d) names ≡ true
      → z.with_default d (z.enum names m) r ≡ success a
      → any (text_eq a) names ≡ true
  listed names m d r a hd h =
      default_holds (λ a. any (text_eq a) names ≡ true) d (z.enum names m) r a hd
        (λ t k. ((laws.enum_iff names m a (some t)).0 k).1) h

  -- Every number of the range can be configured: its decimal text is accepted, and loaded as it is.
  pub int_from_env-decimal :
      (lo hi n : ℕ)
      → lo ≤ n
      → n ≤ hi
      → hi ≤ 9007199254740991
      → int_from_env z lo hi (some (decimal n)) ≡ success (nat n)
  int_from_env-decimal lo hi n low top safe =
      (int_from_env_iff lo hi (some (decimal n)) (nat n)).1 (
        decimal n,
        refl,
        is_integer_text-decimal n,
        number_of-decimal n,
        ground arith,
        ground arith,
        ground arith,
      )
