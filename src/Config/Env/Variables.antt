-- ===== src/Config/Env/Variables.antt =====
-- src/config/env.ts: the schemas of single environment variables.
use queue_worker_kit.Prelude.{
  ℕ, zero, suc, ◌==◌, ltb, leb, length, all, any, Text, codes, text_eq, decimal, digits_value, [],
  ◌∷◌, ◌++◌, Bool, true, false, ◌&&◌, ◌||◌, Option, none, some, if◌then◌else◌,
}
use queue_worker_kit.Values.{Number, nat, negative, other}
use queue_worker_kit.Config.Schema.{Schema, Builders}

-- `\d`, and `/^-?\d+$/`.
abbrev pub is_digit : ℕ → Bool
is_digit c = leb b'0' c && leb c b'9'

abbrev pub is_digits : Text → Bool
is_digits [] = false
is_digits (c ∷ s) = is_digit c && all is_digit s

unfoldable pub is_integer_text : Text → Bool
is_integer_text [] = false
is_integer_text (c ∷ s) = if c == b'-' then is_digits s else is_digits (c ∷ s)

-- `Number(s)` on a text that `/^-?\d+$/` matches, before rounding: a text above the safe range
-- is read as a number above it. `-0` is 0.
abbrev pub minus : ℕ → Number
minus zero = nat 0
minus (suc n) = negative n

unfoldable pub number_of : Text → Number
number_of [] = nat 0
number_of (c ∷ s) = if c == b'-' then minus (digits_value s) else nat (digits_value (c ∷ s))

abbrev max_safe_integer : ℕ
max_safe_integer = 9007199254740991

-- `Number.isSafeInteger`, `value >= min` and `value <= max`; `negative n` is -(n + 1).
abbrev pub is_safe_integer : Number → Bool
is_safe_integer (nat n) = leb n max_safe_integer
is_safe_integer (negative n) = ltb n max_safe_integer
is_safe_integer (other s) = false

abbrev pub at_least : ℕ → Number → Bool
at_least lo (nat n) = leb lo n
at_least lo _ = false

abbrev pub at_most : ℕ → Number → Bool
at_most hi (nat n) = leb n hi
at_most hi (negative n) = true
at_most hi (other s) = false

unfoldable pub int_from_env : Builders → ℕ → ℕ → Schema Number
unfolding is_integer_text number_of
int_from_env z lo hi = z.refine (at_most hi) (some (codes "must be <= " ++ decimal hi)) (
    z.refine (at_least lo) (some (codes "must be >= " ++ decimal lo)) (
      z.refine is_safe_integer (some (codes "must be a safe integer")) (
        z.transform number_of (
          z.refine is_integer_text (some (codes "must be an integer"))
            (z.string (some (codes "must be an integer")))))))

-- What `trim` removes and `\s` matches.
is_white : ℕ → Bool
is_white c =
    any (λ w. c == w)
      (9 ∷ 10 ∷ 11 ∷ 12 ∷ 13 ∷ 32 ∷ 160 ∷ 5760 ∷ 8232 ∷ 8233 ∷ 8239 ∷ 8287 ∷ 12288 ∷ 65279 ∷ [])
    || (leb 8192 c && leb c 8202)

-- `value.trim().length === 0`
unfoldable pub is_blank : Text → Bool
unfolding is_white
is_blank s = all is_white s

unfoldable pub empty_to_undefined : Option Text → Option Text
unfolding is_blank
empty_to_undefined none = none
empty_to_undefined (some s) = if is_blank s then none else some s

unfoldable pub optional_bool_from_env : Builders → Schema (Option Bool)
unfolding empty_to_undefined
optional_bool_from_env z =
    z.preprocess empty_to_undefined (z.optional (z.stringbool (codes "must be a boolean")))

unfoldable pub bool_from_env : Builders → Bool → Schema Bool
unfolding empty_to_undefined
bool_from_env z default =
    z.preprocess empty_to_undefined
      (z.with_default default (z.stringbool (codes "must be a boolean")))

abbrev pub not_empty : Text → Bool
not_empty s = leb 1 (length s)

unfoldable pub optional_secret : Builders → Schema (Option Text)
unfolding empty_to_undefined
optional_secret z =
    z.preprocess empty_to_undefined (z.optional (z.refine not_empty none (z.string none)))

-- `new URL(value)`, which the host implements: nothing where it throws.
pub record Url : Type 0 where
  pub protocol : Text
  pub hostname : Text

abbrev pub is_redis : Option Url → Bool
is_redis none = false
is_redis (some url) =
    (text_eq url.protocol (codes "redis:") || text_eq url.protocol (codes "rediss:"))
    && not_empty url.hostname

unfoldable pub redis_url_schema : Builders → (Text → Option Url) → Schema Text
redis_url_schema z new_url =
    z.refine (λ value. is_redis (new_url value))
      (some (codes "must be a valid redis:// or rediss:// URL"))
      (z.refine not_empty (some (codes "must not be empty")) (z.string none))

-- The number of parts that `value.split(/\s+/)` has, the empty ones left out: the parts begin
-- where a code unit that is not white follows a white one or the start.
count_fields : Bool → Text → ℕ
unfolding is_white
count_fields inside [] = 0
count_fields inside (c ∷ s) =
    let out = count_fields false s in
    let within = count_fields true s in
    if is_white c then out else if inside then within else suc within

unfoldable pub cron_fields : Text → ℕ
unfolding count_fields
cron_fields s = count_fields false s

-- `.trim()`: the text between its first and its last code unit that is not white.
trim_start : Text → Text
unfolding is_white
trim_start [] = []
trim_start (c ∷ s) = let rest = trim_start s in if is_white c then rest else c ∷ s

trim_end : Text → Text
unfolding is_white
trim_end [] = []
trim_end (c ∷ s) = elim (trim_end s) [ [] ↦ if is_white c then [] else c ∷ [] | d ∷ r ↦ c ∷ d ∷ r ]

unfoldable pub trim_text : Text → Text
unfolding trim_start trim_end
trim_text s = trim_end (trim_start s)

unfoldable pub is_cron : Text → Bool
unfolding cron_fields
is_cron s = (cron_fields s == 5) || (cron_fields s == 6)

unfoldable pub cron_schema : Builders → Schema Text
unfolding trim_text is_cron
cron_schema z =
    z.refine is_cron (some (codes "must be a 5- or 6-field cron expression"))
      (z.transform trim_text (z.string none))

-- `/^[A-Za-z0-9_.:-]+$/`
is_prefix_unit : ℕ → Bool
is_prefix_unit c =
    (leb b'a' c && leb c b'z')
    || ((leb b'A' c && leb c b'Z')
        || (is_digit c || any (λ w. c == w) (b'_' ∷ b'.' ∷ b':' ∷ b'-' ∷ [])))

unfoldable pub is_prefix : Text → Bool
unfolding is_prefix_unit
is_prefix s = not_empty s && all is_prefix_unit s

unfoldable pub queue_prefix_schema : Builders → Schema Text
unfolding is_prefix
queue_prefix_schema z =
    z.refine is_prefix (some (codes "may only contain letters, digits and _ . : -"))
      (z.refine not_empty (some (codes "must not be empty")) (z.string none))

unfoldable pub host_schema : Builders → Schema Text
host_schema z = z.refine not_empty (some (codes "must not be empty")) (z.string none)
