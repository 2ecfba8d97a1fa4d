-- ===== src/Dictionary.antt =====
-- A JavaScript `Map` with text keys, in insertion order.
use queue_worker_kit.Prelude.{
  Text, text_eq, text_eq_iff, List, [], ◌∷◌, Option, none, some, ◌≡◌, refl, arith, if◌then◌else◌,
}

abbrev pub Dictionary {ℓ} : Type ℓ → Type ℓ
Dictionary V = List (Text × V)

module _ {ℓ} {V : Type ℓ} where
  -- `m.get(key)`
  unfoldable pub lookup : Text → Dictionary V → Option V
  lookup key [] = none
  lookup key ((k, v) ∷ m) = if text_eq k key then some v else lookup key m

  -- `m.set(key, value)`: a key that is there keeps its place.
  unfoldable pub insert : Text → V → Dictionary V → Dictionary V
  insert key value [] = (key, value) ∷ []
  insert key value ((k, v) ∷ m) =
      if text_eq k key then (key, value) ∷ m else (k, v) ∷ insert key value m

  -- `new Map(entries)`
  unfoldable pub insert_all : Dictionary V → Dictionary V → Dictionary V
  insert_all [] m = m
  insert_all ((k, v) ∷ es) m = insert_all es (insert k v m)

  unfoldable pub keys : Dictionary V → List Text
  keys [] = []
  keys ((k, v) ∷ m) = k ∷ keys m

  pub lookup-insert :
      (key j : Text) (value : V) (m : Dictionary V)
      → lookup j (insert key value m) ≡ (if text_eq key j then some value else lookup j m)
  unfolding lookup insert
  lookup-insert key j value [] = refl
  lookup-insert key j value ((k, v) ∷ m) =
      ground
        (arith, text_eq_iff k key, text_eq_iff k j, text_eq_iff key j, lookup-insert key j value m)
