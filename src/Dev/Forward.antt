-- ===== src/Dev/Forward.antt =====
-- `forward` of scripts/dev.mjs. A stream is the list of its decoded chunks; a write is a text.
pub mod Laws
use queue_worker_kit.Prelude.{
  ℕ, zero, suc, ◌-◌, length, map, split, Text, codes, List, [], ◌∷◌, ◌++◌,
}
use queue_worker_kit.Dev.{prefix_width}

abbrev spaces : ℕ → Text
spaces zero = []
spaces (suc n) = b' ' ∷ spaces n

-- `label.padEnd(width)`
abbrev pad_end : ℕ → Text → Text
pad_end width label = label ++ spaces (width - length label)

unfoldable pub prefixed : Text → Text → Text
prefixed label line =
    codes "[" ++ (pad_end prefix_width label ++ (codes "] " ++ (line ++ codes "\n")))

-- `lines.pop() ?? ''`: the lines that are left, and the last one.
abbrev pub pop_last : List Text → List Text × Text
pop_last [] = ([], [])
pop_last (x ∷ []) = ([], x)
pop_last (x ∷ y ∷ r) = let (kept, last) = pop_last (y ∷ r) in (x ∷ kept, last)

-- A chunk: what is held back afterwards, and what is written.
unfoldable pub on_data : Text → Text → Text → Text × List Text
unfolding prefixed split
on_data label buffered chunk =
    let (lines, last) = pop_last (split b'\n' (buffered ++ chunk)) in
    (last, map (prefixed label) lines)

unfoldable pub on_end : Text → Text → List Text
unfolding prefixed
on_end label [] = []
on_end label (c ∷ buffered) = prefixed label (c ∷ buffered) ∷ []

unfoldable pub on_chunks : Text → Text → List Text → Text × List Text
on_chunks label buffered [] = (buffered, [])
on_chunks label buffered (chunk ∷ chunks) =
    let (held, written) = on_data label buffered chunk in
    let (last, later) = on_chunks label held chunks in (last, written ++ later)

-- All that is written for a stream that ends.
unfoldable pub forward : Text → List Text → List Text
unfolding on_data on_chunks on_end
forward label chunks =
    let (held, written) = on_chunks label [] chunks in written ++ on_end label held
