-- ===== src/Api/Dashboard.antt =====
-- The check of credentials in src/api/bull-board.ts. The hash is Node's.
use queue_worker_kit.Prelude.{
  Text, codes, text_eq, text_eq_iff, ◌&&◌, Bool, Bool-cases, inl, inr, ◌≡◌, ◌↔◌, refl, ap,
  if◌then◌else◌,
}
use queue_worker_kit.Values.{kit, plain, Completion, normal, throw}

-- `createHash('sha256').update(text).digest()`, and `timingSafeEqual` of two digests, which have
-- one length.
unfoldable pub safe_equal : (Text → Text) → Text → Text → Bool
safe_equal digest candidate expected = text_eq (digest candidate) (digest expected)

-- What `done` is called with: nothing, or an error.
unfoldable pub validate : (Text → Text) → Text → Text → Text → Text → Completion (Unit {0})
unfolding safe_equal
validate digest username password candidate_user candidate_password =
    let user_ok = safe_equal digest candidate_user username in
    let password_ok = safe_equal digest candidate_password password in
    if user_ok && password_ok then normal tt else throw (kit (plain (codes "Invalid credentials")))

-- Where no other text has the digest of the configured name or of the configured password, a
-- request is let through exactly with both of them, each whole and in its place.
validate_iff :
    (digest : Text → Text) (username password : Text)
    (names : (s : Text) → digest s ≡ digest username → s ≡ username)
    (passwords : (s : Text) → digest s ≡ digest password → s ≡ password) (user candidate : Text)
    → (validate digest username password user candidate ≡ normal tt)
      ↔ ((user ≡ username) × (candidate ≡ password))
unfolding validate safe_equal
validate_iff digest username password names passwords user candidate = (
  λ h. elim (Bool-cases (text_eq (digest user) (digest username))) [
    | inr n ↦ cc (rw n at h)
    | inl y ↦ elim (Bool-cases (text_eq (digest candidate) (digest password))) [
      | inr n ↦ cc (rw (y, n) at h)
      | inl z ↦ (names user ((text_eq_iff _ _).0 y), passwords candidate ((text_eq_iff _ _).0 z))
    ]
  ],
  λ (e, f).
      rw
        (
          (text_eq_iff (digest user) (digest username)).1 (ap digest e),
          (text_eq_iff (digest candidate) (digest password)).1 (ap digest f),
        )
        refl,
)
