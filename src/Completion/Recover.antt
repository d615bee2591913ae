-- ===== src/Completion/Recover.antt =====
-- The search for the required answer ends, unless what is required is blank.
use text.Mathlib.Text.{find?}
use text.Mathlib.TextFind.{find_cases}
use text.Mathlib.TextLemmas.{append_assoc, nil-append}
use text.Mathlib.TextPositions.{len-append, len_utf8-pos, slice-append_right, slice_all}
use Prim.Native.Char.{code}
use Prim.Native.String.{[], ◌∷◌, ◌++◌, find}
use Prim.Native.String.len
use Prim.Native.String.find as find_clauses
use mathlib.Core.List.{[], ◌∷◌}
use local_agent.Base.{
  eq_iff, ℕ, zero, suc, ◌+◌, ◌<◌, String, len, slice, ◌≡◌, refl, sym, ap, ◌∙◌, Bool, true, false,
  Option, none, some, List, ltb, ◌==◌, arith, inl, inr, Option-cases, Bool-cases, and_then-some,
  is_whitespace, trim_start, trim_end, ◌&&◌, if_both, str_eq, length, filter, trim, is_blank,
  is_nil, if◌then◌else◌,
}
use local_agent.Completion.Answer.{
  rest_from, fenced_block, fenced_blocks, search_alone, recover_text, stands_alone,
  begins_with_break,
}

-- Where `find` finds a text, it stands.
find_splits :
    (s t : String) (k : ℕ)
    → find? s t ≡ some k
    → (before : String) × (after : String) × (s ≡ before ++ (t ++ after)) × (k ≡ len before)
find_splits s t k h = elim (find_cases s t) [
  | inl (before, after, e, at) ↦ (before, after, e, ground (arith, at))
  | inr miss ↦ absurd (ground (arith, miss))
]

-- Cutting a text after a part of it leaves the rest.
rest_from-append : (s t : String) → rest_from (s ++ t) (len s) ≡ t
rest_from-append s t =
    ap (λ (k : ℕ). slice (s ++ t) (len s) k) (len-append s t) ∙ slice-append_right s t

-- What follows an occurrence, cut at the index and the length of what was found.
rest_after :
    (s t : String) (k n : ℕ)
    → find? s t ≡ some k
    → n ≡ len t
    → len (rest_from s (k + n)) + (k + n) ≡ len s
rest_after s t k n h width =
    let (before, after, e, at) = find_splits s t k h in
    let whole : s ≡ (before ++ t) ++ after = e ∙ sym (append_assoc before t after) in
    let size = len-append before t in
    let here : k + n ≡ len (before ++ t) = omega arith in
    let cut : rest_from s (k + n) ≡ after =
      ap (λ (j : ℕ). rest_from s j) here
      ∙ ap (λ (w : String). rest_from w (len (before ++ t))) whole
      ∙ rest_from-append (before ++ t) after in
    let total = ap len whole ∙ len-append (before ++ t) after in
    let shorter = ap len cut in omega arith

fence_width : len "```" ≡ 3
fence_width = refl

break_width : len "\n" ≡ 1
break_width = refl

-- A block takes at least its two fences from the text.
fenced_block_shorter :
    (rest : String) (block : String × String)
    → fenced_block rest ≡ some block
    → len block.1 < len rest
fenced_block_shorter rest block h =
    let (start, at_start, h') = and_then-some (find? rest "```") _ h in
    let after_ticks = rest_from rest (start + 3) in
    let (idx, at_break, h'') = and_then-some (find? after_ticks "\n") _ h' in
    let after_lang = rest_from after_ticks (idx + 1) in
    let (end_, at_end, last) = and_then-some (find? after_lang "```") _ h'' in
    let a = rest_after rest "```" start 3 at_start (sym fence_width) in
    let b = rest_after after_ticks "\n" idx 1 at_break (sym break_width) in
    let c = rest_after after_lang "```" end_ 3 at_end (sym fence_width) in
    let same : block.1 ≡ rest_from after_lang (end_ + 3) = cc in let l = ap len same in omega arith

-- More fuel than the text has bytes is enough for the loop over its fences.
fenced_blocks_total :
    (fuel : ℕ) (rest : String)
    → len rest < fuel
    → (blocks : List String) × (fenced_blocks fuel rest ≡ some blocks)
unfolding fenced_blocks
fenced_blocks_total zero rest h = absurd (omega arith)
fenced_blocks_total (suc fuel) rest h = elim (Option-cases (fenced_block rest)) [
  | inl e ↦ ([], rw (e, fenced_blocks) refl)
  | inr (block, e) ↦
      let (blocks, done) =
        fenced_blocks_total fuel block.1
          (let s = fenced_block_shorter rest block e in omega arith) in
      (block.0 ∷ blocks, rw (e, fenced_blocks) (rw done refl))
]

-- The search goes on behind what it found, which is nearer to the end where the text is not empty.
search_alone_total :
    (fuel : ℕ) (output required : String) (start found : ℕ) (done rest : String)
    → 0 < len required
    → output ≡ done ++ rest
    → start ≡ len done
    → len output < fuel + start
    → (once : Bool) × (search_alone fuel output required start found ≡ some once)
unfolding search_alone
search_alone_total zero output required start found done rest wide e at h =
    absurd (let size = ap len e ∙ len-append done rest in omega arith)
search_alone_total (suc fuel) output required start found done rest wide e at h =
    elim (Option-cases (find? (rest_from output start) required)) [
      | inl miss ↦ (found == 1, rw (miss, search_alone) refl)
      | inr (rel, hit) ↦
          let cut : rest_from output start ≡ rest =
            ap (λ (k : ℕ). rest_from output k) at
            ∙ ap (λ (w : String). rest_from w (len done)) e
            ∙ rest_from-append done rest in
          let (before, after, split, here) =
            find_splits (rest_from output start) required rel hit in
          let count = if stands_alone output required (start + rel) then found + 1 else found in
          let whole : output ≡ (done ++ (before ++ required)) ++ after =
            e
            ∙ ap (λ (w : String). done ++ w)
                (sym cut ∙ split ∙ sym (append_assoc before required after))
            ∙ sym (append_assoc done (before ++ required) after) in
          let size =
            len-append done (before ++ required)
            ∙ ap (λ (k : ℕ). len done + k) (len-append before required) in
          let (once, later) =
            search_alone_total fuel output required (start + rel + len required) count
              (done ++ (before ++ required)) after wide whole (omega arith) (omega arith) in
          (if ltb 1 count then false else once, rw (hit, search_alone) (rw later (ground arith)))
    ]

solid_width : (s : String) → is_nil s ≡ false → 0 < len s
solid_width [] h = cc
solid_width (c ∷ s) h = rw (len.cons c s) (let (k, e) = len_utf8-pos c in omega arith)

trimmed_width : (s : String) → is_blank s ≡ false → 0 < len (trim s)
trimmed_width s h = solid_width (trim s) h

abbrev Ends : Option (Option String) → Type 0
Ends o = (answer : Option String) × (o ≡ some answer)

-- The search for the required answer in an output always ends where what is required is not blank:
-- more fuel than the trimmed output has bytes is enough for both of its loops.
pub recover_text-terminates :
    (fuel : ℕ) (required raw : String)
    → is_blank required ≡ false
    → len (trim raw) < fuel
    → (answer : Option String) × (recover_text fuel required raw ≡ some answer)
unfolding recover_text
recover_text-terminates fuel required raw solid enough =
    let (blocks, fenced) = fenced_blocks_total fuel (trim raw) enough in
    let (once, searched) =
      search_alone_total fuel (trim raw) (trim required) 0 0 "" (trim raw)
        (trimmed_width required solid) (sym (nil-append (trim raw))) refl (omega arith) in
    rw (fenced, searched)
      (if_both Ends (str_eq (trim raw) (trim required)) (some required, refl)
        (if_both Ends (length (filter (λ block. str_eq (trim block) (trim required)) blocks) == 1)
          (some required, refl) (if once then some required else none, refl)))

-- Nothing is found everywhere.
find_nothing_at : (s : String) → find s "" ≡ 0
find_nothing_at [] = find_clauses.nil ""
find_nothing_at (c ∷ s) = find_clauses.cons c s ""

find_nothing : (s : String) → find? s "" ≡ some 0
find_nothing s = ground (arith, find_nothing_at s)

search_nothing_diverges :
    (fuel : ℕ) (output : String)
    → stands_alone output "" 0 ≡ false
    → search_alone fuel output "" 0 0 ≡ none
unfolding search_alone
search_nothing_diverges zero output h = refl
search_nothing_diverges (suc fuel) output h =
    rw (find_nothing (rest_from output 0), search_alone, h) (search_nothing_diverges fuel output h)

trim_start-break : (s : String) → begins_with_break (trim_start s) ≡ false
unfolding trim_start
trim_start-break [] = refl
trim_start-break (c ∷ s) = elim (Bool-cases (is_whitespace (code c))) [
  | inl e ↦ rw e (trim_start-break s)
  | inr e ↦ rw e (ground arith)
]

trim_end-break : (s : String) → begins_with_break s ≡ false → begins_with_break (trim_end s) ≡ false
unfolding trim_end
trim_end-break [] h = refl
trim_end-break (c ∷ s) h =
    if_both (λ t. begins_with_break t ≡ false) (is_whitespace (code c) && is_nil (trim_end s)) refl
      h

-- Nothing does not stand alone at the start of a trimmed text that is not empty.
nothing_alone : (raw : String) → is_blank raw ≡ false → stands_alone (trim raw) "" 0 ≡ false
unfolding stands_alone
nothing_alone raw h =
    let no_break : begins_with_break (trim raw) ≡ false =
      unfold trim in trim_end-break (trim_start raw) (trim_start-break raw) in
    rw (slice_all (trim raw), no_break) (ground (arith, solid_width (trim raw) h))

is_nil-eq : (s : String) → is_nil s ≡ true → s ≡ ""
is_nil-eq [] h = refl
is_nil-eq (c ∷ s) h = cc

differ_nothing : (s : String) → is_nil s ≡ false → str_eq s "" ≡ false
differ_nothing s h = elim (Bool-cases (str_eq s "")) [
  | inl e ↦ absurd (let k = ap is_nil ((eq_iff s "").0 e) in cc)
  | inr e ↦ e
]

no_fence-blocks :
    (fuel : ℕ) (rest : String) → find? rest "```" ≡ none → fenced_blocks (suc fuel) rest ≡ some []
unfolding fenced_blocks
no_fence-blocks fuel rest h = ground arith

-- Where what is required is blank, the search in an output that is not blank and has no fence finds
-- nothing at the same place for ever: no fuel is enough.
pub recover_text-diverges :
    (fuel : ℕ) (required raw : String)
    → is_blank required ≡ true
    → is_blank raw ≡ false
    → find? (trim raw) "```" ≡ none
    → recover_text fuel required raw ≡ none
unfolding recover_text fenced_blocks
recover_text-diverges zero required raw blank solid no_fence =
    rw (is_nil-eq (trim required) blank, differ_nothing (trim raw) solid) refl
recover_text-diverges (suc fuel) required raw blank solid no_fence =
    rw
      (
        is_nil-eq (trim required) blank,
        differ_nothing (trim raw) solid,
        no_fence-blocks fuel (trim raw) no_fence,
        search_nothing_diverges (suc fuel) (trim raw) (nothing_alone raw solid),
      )
      refl
