-- ===== src/Prelude/Strings.antt =====
-- A JavaScript string as its code units, and the string operations that the program uses.
use Prim.Native.Nat.{ℕ, ◌-◌}
use Prim.Native.Char.{code}
use Prim.Native.String.{String}
use mathlib.Core.Path.{◌≡◌, refl, sym, ap, subst, ◌∙◌}
use mathlib.Core.Logic.{◌↔◌, ◌≢◌}
use mathlib.Core.Bool.{Bool, true, false, ◌&&◌}
use mathlib.Core.List.{List, [], ◌∷◌, ◌++◌, append-nil, append_assoc}
use native.Mathlib.Omega.{arith}
use native.Mathlib.Decide.{ℕ_discrete}
use queue_worker_kit.Prelude.Tests.{◌==◌, leb, if◌then◌else◌}
use queue_worker_kit.Prelude.Lists.{length, drop, All, All-append}

abbrev pub Text : Type 0
Text = List ℕ

-- A literal of the source: all of them are ASCII.
abbrev pub codes : String → Text
codes String.[] = []
codes (String.◌∷◌ c s) = code c ∷ codes s

-- `a === b` on strings.
unfoldable pub text_eq : Text → Text → Bool
text_eq [] [] = true
text_eq [] (y ∷ ys) = false
text_eq (x ∷ xs) [] = false
text_eq (x ∷ xs) (y ∷ ys) = x == y && text_eq xs ys

text_eq_sound : (s t : Text) → text_eq s t ≡ true → s ≡ t
unfolding text_eq
text_eq_sound [] [] h = refl
text_eq_sound [] (y ∷ ys) h = ground arith
text_eq_sound (x ∷ xs) [] h = ground arith
text_eq_sound (x ∷ xs) (y ∷ ys) h = ground (arith, text_eq_sound xs ys)

pub text_eq_refl : (s : Text) → text_eq s s ≡ true
unfolding text_eq
text_eq_refl [] = refl
text_eq_refl (x ∷ xs) = ground (arith, text_eq_refl xs)

pub text_eq_iff : (s t : Text) → (text_eq s t ≡ true) ↔ (s ≡ t)
text_eq_iff s t = (text_eq_sound s t, λ e. rw e (text_eq_refl t))

-- `s.split(sep)` at one code unit, and `parts.join(sep)`.
split_from : ℕ → Text → Text → List Text
split_from sep cur [] = cur ∷ []
split_from sep cur (c ∷ s) =
    let cut = cur ∷ split_from sep [] s in
    let longer = split_from sep (cur ++ c ∷ []) s in if c == sep then cut else longer

unfoldable pub split : ℕ → Text → List Text
unfolding split_from
split sep s = split_from sep [] s

unfoldable pub join : Text → List Text → Text
join sep [] = []
join sep (x ∷ []) = x
join sep (x ∷ y ∷ r) = x ++ (sep ++ join sep (y ∷ r))

-- `s.endsWith(t)`
unfoldable pub ends_with : Text → Text → Bool
unfolding text_eq
ends_with s t = leb (length t) (length s) && text_eq (drop (length s - length t) s) t

abbrev pub Lacks : ℕ → Text → Type 0
Lacks sep s = All (λ c. c ≢ sep) s

split_from-of_Lacks :
    (sep : ℕ) (cur s r : Text)
    → Lacks sep s
    → split_from sep cur (s ++ r) ≡ split_from sep (cur ++ s) r
unfolding split_from
split_from-of_Lacks sep cur [] r h = rw append-nil
split_from-of_Lacks sep cur (c ∷ s) r h =
    ground (arith, split_from-of_Lacks sep (cur ++ c ∷ []) s r, append_assoc cur (c ∷ []) s)

split_from-All-Lacks :
    (sep : ℕ) (cur s : Text) → Lacks sep cur → All (Lacks sep) (split_from sep cur s)
unfolding split_from
split_from-All-Lacks sep cur [] h = (h, tt)
split_from-All-Lacks sep cur (c ∷ s) h = ground (
  arith,
  split_from-All-Lacks sep [] s tt,
  split_from-All-Lacks sep (cur ++ c ∷ []) s,
  All-append (λ x. x ≢ sep) cur (c ∷ []) h,
)

-- No part of a split text holds the separator.
pub split-All-Lacks : (sep : ℕ) (s : Text) → All (Lacks sep) (split sep s)
unfolding split
split-All-Lacks sep s = split_from-All-Lacks sep [] s tt

split_from-join :
    (sep : ℕ) (cur x : Text) (r : List Text)
    → All (Lacks sep) (x ∷ r)
    → split_from sep cur (join (sep ∷ []) (x ∷ r)) ≡ (cur ++ x) ∷ r
unfolding join split_from
split_from-join sep cur x [] h = let e = split_from-of_Lacks sep cur x [] h.0 in rw append-nil at e
split_from-join sep cur x (y ∷ r) h =
    split_from-of_Lacks sep cur x (sep ∷ join (sep ∷ []) (y ∷ r)) h.0
    ∙ ground (arith, split_from-join sep [] y r h.1)

-- Splitting at the separators that a join has put between parts gives the parts back.
pub split-join :
    (sep : ℕ) (x : Text) (r : List Text)
    → All (Lacks sep) (x ∷ r)
    → split sep (join (sep ∷ []) (x ∷ r)) ≡ x ∷ r
unfolding split
split-join sep x r h = split_from-join sep [] x r h

-- The text of lines that are each ended by the separator.
abbrev pub ended : ℕ → List Text → Text
ended sep [] = []
ended sep (l ∷ ls) = l ++ sep ∷ ended sep ls

pub ended-append :
    (sep : ℕ) (ls ms : List Text) → ended sep (ls ++ ms) ≡ ended sep ls ++ ended sep ms
ended-append sep [] ms = refl
ended-append sep (l ∷ ls) ms = simp (ended-append sep ls ms, append_assoc)

-- A text that is cut after its last separator.
pub record Cut (sep : ℕ) (s : Text) : Type 0 where
  pub lines : List Text
  pub rest : Text
  pub whole : s ≡ ended sep lines ++ rest
  pub lines_lack : All (Lacks sep) lines
  pub rest_lacks : Lacks sep rest

Cut-cons :
    (sep c : ℕ) (s : Text) (lines : List Text) (rest : Text)
    → c ≢ sep
    → s ≡ ended sep lines ++ rest
    → All (Lacks sep) lines
    → Lacks sep rest
    → Cut sep (c ∷ s)
Cut-cons sep c s [] rest n whole ls r = record {
  lines = [];
  rest = c ∷ rest;
  whole = ap (◌∷◌ c) whole;
  lines_lack = tt;
  rest_lacks = (n, r);
}
Cut-cons sep c s (l ∷ lines) rest n whole ls r = record {
  lines = (c ∷ l) ∷ lines;
  rest = rest;
  whole = ap (◌∷◌ c) whole;
  lines_lack = ((n, ls.0), ls.1);
  rest_lacks = r;
}

Cut-separator : (sep : ℕ) (s : Text) → Cut sep s → Cut sep (sep ∷ s)
Cut-separator sep s k = record {
  lines = [] ∷ k.lines;
  rest = k.rest;
  whole = ap (◌∷◌ sep) k.whole;
  lines_lack = (tt, k.lines_lack);
  rest_lacks = k.rest_lacks;
}

pub cut : (sep : ℕ) (s : Text) → Cut sep s
cut sep [] = record { lines = []; rest = []; whole = refl; lines_lack = tt; rest_lacks = tt }
cut sep (c ∷ s) = elim (ℕ_discrete c sep) [
  | yes e ↦ subst (λ (x : ℕ). Cut sep (x ∷ s)) (sym e) (Cut-separator sep s (cut sep s))
  | no n ↦ let k = cut sep s in Cut-cons sep c s k.lines k.rest n k.whole k.lines_lack k.rest_lacks
]

-- A split finds the ended lines and what follows them.
pub split-ended :
    (sep : ℕ) (lines : List Text) (rest : Text)
    → All (Lacks sep) lines
    → Lacks sep rest
    → split sep (ended sep lines ++ rest) ≡ lines ++ rest ∷ []
unfolding split split_from
split-ended sep [] rest ls r = let e = split_from-of_Lacks sep [] rest [] r in rw append-nil at e
split-ended sep (l ∷ lines) rest ls r =
    ap (split_from sep []) (append_assoc l (sep ∷ ended sep lines) rest)
    ∙ split_from-of_Lacks sep [] l (sep ∷ (ended sep lines ++ rest)) ls.0
    ∙ ground (arith, split-ended sep lines rest ls.1 r)
