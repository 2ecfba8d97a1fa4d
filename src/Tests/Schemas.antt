-- ===== src/Tests/Schemas.antt =====
-- A concrete implementation of the schema builders, with the laws that the development asks for.
use queue_worker_kit.Prelude.{
  ◌≡◌, ◌↔◌, refl, ap, sym, ◌∙◌, arith, Text, codes, text_eq, any, [], ◌∷◌, List, Bool, true,
  some-eq-some, Option, none, some,
}
use queue_worker_kit.Values.{Issue}
use queue_worker_kit.Jobs.Types.{Parsed, success, success-injective, failure}
use queue_worker_kit.Tests.Fixtures.{checked, checked-success}
use queue_worker_kit.Config.Schema.{Schema, Builders, BuildersLaws}

abbrev parsed_bind : {A B : Type 0} → Parsed A → (A → Parsed B) → Parsed B
parsed_bind (success a) f = f a
parsed_bind (failure i) f = failure i

abbrev given : {A : Type 0} → (Text → Parsed A) → Schema A
given f none = failure []
given f (some t) = f t

abbrev or_default : {A : Type 0} → A → Schema A → Schema A
or_default a s none = success a
or_default a s (some t) = s (some t)

abbrev absent_or : {A : Type 0} → Schema A → Schema (Option A)
absent_or s none = success none
absent_or s (some t) = parsed_bind (s (some t)) (λ a. success (some a))

abbrev unless : {A : Type 0} → List Issue → A → Parsed A
unless [] a = success a
unless (i ∷ is) a = failure (i ∷ is)

abbrev pub test_builders : Builders
test_builders = record {
  string = λ m. given success;
  enum = λ names m. given (checked (λ t. any (text_eq t) names));
  stringbool = λ m. given (λ t. success (text_eq t (codes "true")));
  refine = λ p m s r. parsed_bind (s r) (checked p);
  transform = λ f s r. parsed_bind (s r) (λ a. success (f a));
  with_default = or_default;
  optional = absent_or;
  preprocess = λ f s r. s (f r);
  no_keys = λ source. success tt;
  key = λ name s o source.
      parsed_bind (s (source name)) (λ a. parsed_bind (o source) (λ b. success (a, b)));
  super_refine = λ issues o source. parsed_bind (o source) (λ a. unless (issues a) a);
}

bind_iff :
    {A B : Type 0} (r : Parsed A) (f : A → Parsed B) (b : B)
    → (parsed_bind r f ≡ success b) ↔ ((a : A) × (r ≡ success a) × (f a ≡ success b))
bind_iff (success a) f b = (λ h. (a, refl, h), λ (a', e, h). ap f (success-injective e) ∙ h)
bind_iff (failure i) f b = (λ h. cc, λ (a, e, h). cc)

checked_iff :
    {A : Type 0} (p : A → Bool) (a b : A) → (checked p a ≡ success b) ↔ ((a ≡ b) × (p b ≡ true))
checked_iff p a b = (
  λ h. let (y, e) = checked-success p a b h in (e, ap p (sym e) ∙ y),
  λ (e, y). ground (arith, ap p e, y),
)

given_iff : (s : Text) (r : Option Text) → (given success r ≡ success s) ↔ (r ≡ some s)
given_iff s none = (λ h. cc, λ h. cc)
given_iff s (some t) = (λ h. ap some (success-injective h), λ h. cc)

enum_case :
    (names : List Text) (s : Text) (r : Option Text)
    → (given (checked (λ t. any (text_eq t) names)) r ≡ success s)
      ↔ ((r ≡ some s) × (any (text_eq s) names ≡ true))
enum_case names s none = (λ h. cc, λ h. cc h.0)
enum_case names s (some t) =
    let same = checked_iff (λ t. any (text_eq t) names) t s in
    (λ h. (ap some (same.0 h).0, (same.0 h).1), λ (e, y). same.1 (some-eq-some e, y))

refine_case :
    {A : Type 0} (p : A → Bool) (r : Parsed A) (a : A)
    → (parsed_bind r (checked p) ≡ success a) ↔ ((r ≡ success a) × (p a ≡ true))
refine_case p r a = (
  λ h.
      let (b, e, k) = (bind_iff r (checked p) a).0 h in
      let (same, y) = (checked_iff p b a).0 k in (e ∙ ap success same, y),
  λ (e, y). (bind_iff r (checked p) a).1 (a, e, (checked_iff p a a).1 (refl, y)),
)

map_case :
    {A B : Type 0} (f : A → B) (r : Parsed A) (b : B)
    → (parsed_bind r (λ a. success (f a)) ≡ success b) ↔ ((a : A) × (r ≡ success a) × (f a ≡ b))
map_case f r b = (
  λ h. let (a, e, k) = (bind_iff r _ b).0 h in (a, e, success-injective k),
  λ (a, e, k). (bind_iff r _ b).1 (a, e, ap success k),
)

key_case :
    {A B : Type 0} (r : Parsed A) (q : Parsed B) (p : A × B)
    → parsed_bind r (λ a. parsed_bind q (λ b. success (a, b))) ≡ success p
    → (r ≡ success p.0) × (q ≡ success p.1)
key_case r q p h =
    let (a, e, k) = (bind_iff r _ p).0 h in
    let (b, f, l) = (bind_iff q _ p).0 k in
    let same = success-injective l in
    (e ∙ ap (λ x. success x.0) same, f ∙ ap (λ x. success x.1) same)

unless_iff :
    {A : Type 0} (is : List Issue) (a b : A) → (unless is a ≡ success b) ↔ ((a ≡ b) × (is ≡ []))
unless_iff [] a b = (λ h. (success-injective h, refl), λ (e, h). ap success e)
unless_iff (i ∷ is) a b = (λ h. cc, λ (e, h). cc)

super_case :
    {A : Type 0} (issues : A → List Issue) (r : Parsed A) (a : A)
    → (parsed_bind r (λ a. unless (issues a) a) ≡ success a) ↔ ((r ≡ success a) × (issues a ≡ []))
super_case issues r a = (
  λ h.
      let (b, e, k) = (bind_iff r _ a).0 h in
      let (same, none_left) = (unless_iff (issues b) b a).0 k in
      (e ∙ ap success same, ap issues (sym same) ∙ none_left),
  λ (e, h). (bind_iff r _ a).1 (a, e, (unless_iff (issues a) a a).1 (refl, h)),
)

pub test_builders-laws : BuildersLaws test_builders
test_builders-laws = record {
  string_iff = λ m s r. given_iff s r;
  enum_iff = λ names m s r. enum_case names s r;
  refine_iff = λ p m s r a. refine_case p (s r) a;
  transform_iff = λ f s r b. map_case f (s r) b;
  default_absent = λ a s. refl;
  default_present = λ a s t. refl;
  key_success = λ name s o source p h. key_case (s (source name)) (o source) p h;
  super_refine_iff = λ issues o source a. super_case issues (o source) a;
}
