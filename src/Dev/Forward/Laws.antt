-- ===== src/Dev/Forward/Laws.antt =====
-- What `forward` of scripts/dev.mjs writes, however a stream is cut into chunks.
use mathlib.Core.List.{append-nil, append_assoc, map-append}
use queue_worker_kit.Prelude.{
  ℕ, ◌==◌, if◌then◌else◌, ◌≡◌, refl, sym, ap, ◌∙◌, arith, map, All, All-append, Lacks, ended,
  ended-append, Cut, cut, split, split-ended, Text, List, [], ◌∷◌, ◌++◌,
}
use queue_worker_kit.Dev.Forward.{prefixed, pop_last, on_data, on_end, on_chunks, forward}

pub concat : List Text → Text
concat [] = []
concat (chunk ∷ chunks) = chunk ++ concat chunks

-- The lines of a text: a newline ends a line, and what follows the last one is a line if it is not
-- empty.
extend : ℕ → List Text → List Text
extend c [] = (c ∷ []) ∷ []
extend c (l ∷ ls) = (c ∷ l) ∷ ls

unfoldable pub lines_of : Text → List Text
unfolding extend
lines_of [] = []
lines_of (c ∷ s) = let rest = lines_of s in if c == b'\n' then [] ∷ rest else extend c rest

abbrev unended : Text → List Text
unended [] = []
unended (c ∷ s) = (c ∷ s) ∷ []

lines_of-unended : (s : Text) → Lacks b'\n' s → lines_of s ≡ unended s
unfolding lines_of
lines_of-unended [] h = refl
lines_of-unended (c ∷ []) h = ground arith
lines_of-unended (c ∷ d ∷ s) h = ground (arith, lines_of-unended (d ∷ s) h.1)

lines_of-line : (l s : Text) → Lacks b'\n' l → lines_of (l ++ b'\n' ∷ s) ≡ l ∷ lines_of s
unfolding lines_of
lines_of-line [] s h = refl
lines_of-line (c ∷ l) s h = ground (arith, lines_of-line l s h.1)

lines_of-ended :
    (lines : List Text) (rest : Text)
    → All (Lacks b'\n') lines
    → Lacks b'\n' rest
    → lines_of (ended b'\n' lines ++ rest) ≡ lines ++ unended rest
lines_of-ended [] rest h r = lines_of-unended rest r
lines_of-ended (l ∷ lines) rest h r =
    ap lines_of (append_assoc l (b'\n' ∷ ended b'\n' lines) rest)
    ∙ lines_of-line l (ended b'\n' lines ++ rest) h.0
    ∙ ap (◌∷◌ l) (lines_of-ended lines rest h.1 r)

pop_last-append : (ls : List Text) (x : Text) → pop_last (ls ++ x ∷ []) ≡ (ls, x)
pop_last-append [] x = refl
pop_last-append (l ∷ []) x = refl
pop_last-append (l ∷ m ∷ ls) x = let e = pop_last-append (m ∷ ls) x in rw e refl

on_data_lem :
    (label buffered chunk : Text) (k : Cut b'\n' (buffered ++ chunk))
    → on_data label buffered chunk ≡ (k.rest, map (prefixed label) k.lines)
unfolding on_data
on_data_lem label buffered chunk k =
    let e = ap (split b'\n') k.whole ∙ split-ended b'\n' k.lines k.rest k.lines_lack k.rest_lacks in
    rw (e, pop_last-append k.lines k.rest) refl

on_end-unended : (label s : Text) → on_end label s ≡ map (prefixed label) (unended s)
unfolding on_end
on_end-unended label [] = refl
on_end-unended label (c ∷ s) = refl

-- A chunk writes the lines that it ends and holds the rest back.
on_chunks_lem :
    (label buffered : Text) (chunks : List Text)
    → Lacks b'\n' buffered
    → (k : Cut b'\n' (buffered ++ concat chunks)) × (on_chunks label buffered chunks
        ≡ (k.rest, map (prefixed label) k.lines))
unfolding on_chunks concat
on_chunks_lem label buffered [] h = (
  record {
    lines = [];
    rest = buffered;
    whole = append-nil buffered;
    lines_lack = tt;
    rest_lacks = h;
  },
  refl,
)
on_chunks_lem label buffered (chunk ∷ chunks) h =
    let k = cut b'\n' (buffered ++ chunk) in
    let (k', later) = on_chunks_lem label k.rest chunks k.rest_lacks in
    (
      record {
        lines = k.lines ++ k'.lines;
        rest = k'.rest;
        whole =
            sym (append_assoc buffered chunk (concat chunks))
            ∙ ap (λ (t : Text). t ++ concat chunks) k.whole
            ∙ append_assoc (ended b'\n' k.lines) k.rest (concat chunks)
            ∙ ap (λ (t : Text). ended b'\n' k.lines ++ t) k'.whole
            ∙ simp (ended-append, append_assoc);
        lines_lack = All-append (Lacks b'\n') k.lines k'.lines k.lines_lack k'.lines_lack;
        rest_lacks = k'.rest_lacks;
      },
      rw (on_data_lem label buffered chunk k, later, map-append) refl,
    )

-- However a stream is cut into chunks, what is written for it is each line of the whole stream,
-- once, in order, behind the label and ended by a newline; a last line that the stream does not end
-- is written too.
pub forward-lines_of :
    (label : Text) (chunks : List Text)
    → forward label chunks ≡ map (prefixed label) (lines_of (concat chunks))
unfolding forward
forward-lines_of label chunks =
    let (k, e) = on_chunks_lem label [] chunks tt in
    let l = ap lines_of k.whole ∙ lines_of-ended k.lines k.rest k.lines_lack k.rest_lacks in
    rw (e, l, map-append, on_end-unended)
