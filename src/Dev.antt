-- ===== src/Dev.antt =====
-- scripts/dev.mjs, which runs both processes together for local development: their labels, how
-- their output is passed on (Forward), and when they are stopped (Supervisor).
pub mod Forward
pub mod Supervisor
use queue_worker_kit.Prelude.{ℕ, ltb, if◌then◌else◌, length, Text, codes, List, [], ◌∷◌}

pub record Target : Type 0 where
  pub label : Text
  pub entry : Text

abbrev pub targets : List Target
targets =
    record { label = codes "api"; entry = codes "src/api/server.ts" }
    ∷ record { label = codes "worker"; entry = codes "src/worker/server.ts" }
    ∷ []

-- `Math.max(...targets.map((t) => t.label.length))`
abbrev pub widest : List Target → ℕ
widest [] = 0
widest (t ∷ ts) = let rest = widest ts in if ltb rest (length t.label) then length t.label else rest

abbrev pub prefix_width : ℕ
prefix_width = widest targets
