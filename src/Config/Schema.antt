-- ===== src/Config/Schema.antt =====
-- zod's schema builders as src/config/env.ts uses them, and what their documentation promises. A
-- schema is what its `safeParse` does to an environment variable, absent or a text.
use queue_worker_kit.Prelude.{Text, any, text_eq, List, Bool, true, Option, none, some, ◌≡◌, ◌↔◌}
use queue_worker_kit.Values.{Issue}
use queue_worker_kit.Jobs.Types.{Parsed, success}

abbrev pub Schema : Type 0 → Type 0
Schema A = Option Text → Parsed A

abbrev pub Source : Type 0
Source = Text → Option Text

abbrev pub ObjectSchema : Type 0 → Type 0
ObjectSchema A = Source → Parsed A

-- `refine` stands for `refine`, `min` and `regex`, a test with its message or zod's own, and
-- `transform` for `transform` and `trim`. An object is built key by key.
pub record Builders : Type 1 where
  pub string : Option Text → Schema Text
  pub enum : List Text → Option Text → Schema Text
  pub stringbool : Text → Schema Bool
  pub refine : {A : Type 0} → (A → Bool) → Option Text → Schema A → Schema A
  pub transform : {A B : Type 0} → (A → B) → Schema A → Schema B
  pub with_default : {A : Type 0} → A → Schema A → Schema A
  pub optional : {A : Type 0} → Schema A → Schema (Option A)
  pub preprocess : {A : Type 0} → (Option Text → Option Text) → Schema A → Schema A
  pub no_keys : ObjectSchema (Unit {0})
  pub key : {A B : Type 0} → Text → Schema A → ObjectSchema B → ObjectSchema (A × B)
  pub super_refine : {A : Type 0} → (A → List Issue) → ObjectSchema A → ObjectSchema A

pub record BuildersLaws (z : Builders) : Type 1 where
  pub string_iff :
      (m : Option Text) (s : Text) (r : Option Text) → (z.string m r ≡ success s) ↔ (r ≡ some s)
  pub enum_iff :
      (names : List Text) (m : Option Text) (s : Text) (r : Option Text)
      → (z.enum names m r ≡ success s) ↔ ((r ≡ some s) × (any (text_eq s) names ≡ true))
  pub refine_iff :
      {A : Type 0} (p : A → Bool) (m : Option Text) (s : Schema A) (r : Option Text) (a : A)
      → (z.refine p m s r ≡ success a) ↔ ((s r ≡ success a) × (p a ≡ true))
  pub transform_iff :
      {A B : Type 0} (f : A → B) (s : Schema A) (r : Option Text) (b : B)
      → (z.transform f s r ≡ success b) ↔ ((a : A) × (s r ≡ success a) × (f a ≡ b))
  pub default_absent : {A : Type 0} (a : A) (s : Schema A) → z.with_default a s none ≡ success a
  pub default_present :
      {A : Type 0} (a : A) (s : Schema A) (t : Text) → z.with_default a s (some t) ≡ s (some t)
  pub key_success :
      {A B : Type 0} (name : Text) (s : Schema A) (o : ObjectSchema B) (source : Source) (p : A × B)
      → z.key name s o source ≡ success p
      → (s (source name) ≡ success p.0) × (o source ≡ success p.1)
  pub super_refine_iff :
      {A : Type 0} (issues : A → List Issue) (o : ObjectSchema A) (source : Source) (a : A)
      → (z.super_refine issues o source ≡ success a)
        ↔ ((o source ≡ success a) × (issues a ≡ List.[]))
