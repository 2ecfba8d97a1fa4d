-- ===== src/Api/App.antt =====
-- The correlation id of a request, in the hook of src/api/app.ts.
use queue_worker_kit.Prelude.{
  ℕ, arith, Text, all, length, leb, ◌==◌, ◌&&◌, ◌||◌, Bool, Bool-cases, Option, none, some,
  if◌then◌else◌,
}
use queue_worker_kit.Jobs.Types.{HasLength}
use mathlib.Core.Logic.{inl, inr}

-- `[A-Za-z0-9._:-]`
unfoldable pub is_safe_char : ℕ → Bool
is_safe_char c =
    (leb b'A' c && leb c b'Z')
    || ((leb b'a' c && leb c b'z')
        || ((leb b'0' c && leb c b'9') || (c == b'.' || (c == b'_' || (c == b':' || c == b'-')))))

-- `SAFE_CORRELATION_ID.test(s)`
unfoldable pub is_safe_correlation_id : Text → Bool
is_safe_correlation_id s = leb 1 (length s) && (leb (length s) 200 && all is_safe_char s)

-- A header that is absent or repeated is not a text.
unfoldable pub request_correlation_id : Option Text → Text → Text
request_correlation_id none request_id = request_id
request_correlation_id (some incoming) request_id =
    if is_safe_correlation_id incoming then incoming else request_id

-- The correlation id of a request, whatever the header holds, has from 1 to 200 code units, if the
-- id that Fastify gives the request has.
pub request_correlation_id-HasLength :
    (header : Option Text) (request_id : Text)
    → HasLength 1 200 request_id
    → HasLength 1 200 (request_correlation_id header request_id)
unfolding request_correlation_id is_safe_correlation_id
request_correlation_id-HasLength none request_id h = h
request_correlation_id-HasLength (some incoming) request_id h =
    elim (Bool-cases (is_safe_correlation_id incoming)) [
      | inl y ↦ ground (arith, y, h)
      | inr n ↦ ground (arith, n, h)
    ]
