-- ===== src/SourcePatches/Simultaneous.antt =====
-- src/services/source-line-patches.ts: the edits of the original lines all at once.
use hopper_pi.Prelude.{
  ℕ, zero, suc, ◌+◌, ◌-◌, ◌≤◌, ◌≡◌, refl, sym, ap, subst, ◌∙◌, true, false, List, [], ◌∷◌, ◌++◌,
  all, leb, ltb, arith, inl, inr, length,
}
use hopper_pi.SourcePatches.{
  Text, SourcePatch, insert, replace, delete, ok, Edit, edit_of, edits_of, source_lines, take, drop,
  splice, splice_all, sort_edits, apply_source_patches,
}
use hopper_pi.SourcePatches.ReadsBack.{all-sort_edits, Result-cases, reads_back}
use hopper_pi.SourcePatches.Woven.{
  new_at, is_covered, woven, is_below, descends, is_within, descends-sort_edits, woven-sort_edits,
}
use hopper_pi.SourcePatches.Splices.{
  append_assoc, append_nil, length-take, splice_all-front, ends_by,
}

edit-is_within :
    (ls : List Text) (p : SourcePatch) (e : Edit)
    → edit_of ls p ≡ ok e
    → is_within (length ls) e ≡ true
unfolding edit_of
edit-is_within ls (insert a new) e h = ground arith
edit-is_within ls (replace a b x new) e h = ground arith
edit-is_within ls (delete a b x) e h = ground arith

edits-is_within :
    (ls : List Text) (ps : List SourcePatch) (es : List Edit)
    → edits_of ls ps ≡ ok es
    → all (is_within (length ls)) es ≡ true
unfolding edits_of
edits-is_within ls [] es h = ground arith
edits-is_within ls (p ∷ ps) es h = elim (Result-cases (edit_of ls p)) [
  | inl (c, f) ↦ ground arith
  | inr (e, f) ↦ elim (Result-cases (edits_of ls ps)) [
    | inl (c, g) ↦ ground arith
    | inr (fs, g) ↦ ground (arith, edit-is_within ls p e f, edits-is_within ls ps fs g)
  ]
]

drop_nil : (n : ℕ) → drop n [] ≡ []
drop_nil zero = refl
drop_nil (suc n) = refl

drop_step :
    (n q : ℕ) (l : Text) (ls : List Text)
    → ltb q n ≡ true
    → drop (n - q) (l ∷ ls) ≡ drop (n - suc q) ls
drop_step n q l ls h = let e : n - q ≡ suc (n - suc q) = ground arith in ap (λ m. drop m (l ∷ ls)) e

drop_none : (n q : ℕ) (ls : List Text) → ltb q n ≡ false → drop (n - q) ls ≡ ls
drop_none n q ls h = let e : n - q ≡ 0 = ground arith in ap (λ m. drop m ls) e

-- Where the last edit starts or later, the others do nothing.
quiet :
    (q : ℕ) (e : Edit) (es : List Edit)
    → all (is_below e) es ≡ true
    → leb e.start q ≡ true
    → (new_at q es ≡ []) × (is_covered q es ≡ false)
quiet q e [] b h = (refl, refl)
quiet q e (f ∷ es) b h = ground (arith, quiet q e es)

woven_past :
    (q : ℕ) (e : Edit) (es : List Edit) (ls : List Text)
    → all (is_below e) es ≡ true
    → ltb e.start q ≡ true
    → woven (e ∷ es) q ls ≡ drop (e.end - q) ls
unfolding woven
woven_past q e es [] b h = ground (arith, quiet q e es, drop_nil (e.end - q))
woven_past q e es (l ∷ ls) b h = ground (
  arith,
  quiet q e es,
  woven_past (suc q) e es ls,
  drop_step e.end q l ls,
  drop_none e.end q (l ∷ ls),
  drop_none e.end (suc q) ls,
)

woven_at :
    (e : Edit) (es : List Edit) (ls : List Text)
    → all (is_below e) es ≡ true
    → woven (e ∷ es) e.start ls ≡ e.lines ++ drop (e.end - e.start) ls
unfolding woven
woven_at e es [] b =
    ground (arith, quiet e.start e es, drop_nil (e.end - e.start), append_nil e.lines)
woven_at e es (l ∷ ls) b = ground (
  arith,
  quiet e.start e es,
  append_nil e.lines,
  woven_past (suc e.start) e es ls,
  drop_step e.end e.start l ls,
  drop_none e.end e.start (l ∷ ls),
  drop_none e.end (suc e.start) ls,
)

woven_before :
    (k q : ℕ) (e : Edit) (es : List Edit) (ls : List Text)
    → all (is_below e) es ≡ true
    → e.start ≡ q + k
    → k ≤ length ls
    → woven (e ∷ es) q ls ≡ woven es q (take k ls) ++ e.lines ++ drop (e.end - e.start) (drop k ls)
unfolding woven
woven_before zero q e es ls b s h =
    let here : q ≡ e.start = omega arith in
    subst (λ p. woven (e ∷ es) p ls ≡ new_at p es ++ e.lines ++ drop (e.end - e.start) ls)
      (sym here) (ground (arith, woven_at e es ls b, quiet e.start e es))
woven_before (suc k) q e es [] b s h = ground arith
woven_before (suc k) q e es (l ∷ ls) b s h =
    let new = new_at q es in
    let rest = woven es (suc q) (take k ls) in
    let tail = drop (e.end - e.start) (drop k ls) in
    ground (
      arith,
      woven_before k (suc q) e es ls b (omega arith) (omega arith),
      append_assoc (new ++ rest) e.lines tail,
      append_assoc (new ++ l ∷ rest) e.lines tail,
      append_assoc new rest (e.lines ++ tail),
      append_assoc new (l ∷ rest) (e.lines ++ tail),
      append_assoc rest e.lines tail,
      append_assoc (l ∷ rest) e.lines tail,
    )

woven_none : (q : ℕ) (ls : List Text) → woven [] q ls ≡ ls
unfolding woven
woven_none q [] = refl
woven_none q (l ∷ ls) = ap (λ r. l ∷ r) (woven_none (suc q) ls)

all-ends_by : (n : ℕ) (es : List Edit) → all (is_within n) es ≡ true → all (ends_by n) es ≡ true
all-ends_by n [] h = refl
all-ends_by n (e ∷ es) h = ground (arith, all-ends_by n es)

within_before :
    (n m : ℕ) (e : Edit) (es : List Edit)
    → all (is_below e) es ≡ true
    → all (is_within n) es ≡ true
    → e.start ≡ m
    → all (is_within m) es ≡ true
within_before n m e [] b w h = refl
within_before n m e (f ∷ es) b w h = ground (arith, within_before n m e es)

splice_all-woven :
    (es : List Edit) (ls : List Text)
    → descends es ≡ true
    → all (is_within (length ls)) es ≡ true
    → splice_all es ls ≡ woven es 0 ls
unfolding splice_all splice
splice_all-woven [] ls d w = sym (woven_none 0 ls)
splice_all-woven (e ∷ es) ls d w =
    let front = take e.start ls in
    let tail = drop (e.end - e.start) (drop e.start ls) in
    let size : length front ≡ e.start = length-take e.start ls (ground arith) in
    let within =
      within_before (length ls) (length front) e es (ground arith) (ground arith) (sym size) in
    ap (splice_all es) (append_assoc front e.lines tail)
    ∙ splice_all-front es front (e.lines ++ tail) (ground arith)
        (all-ends_by (length front) es within)
    ∙ ap (λ r. r ++ (e.lines ++ tail)) (splice_all-woven es front (ground arith) within)
    ∙ sym (append_assoc (woven es 0 front) e.lines tail)
    ∙ sym (woven_before e.start 0 e es ls (ground arith) (omega arith) (ground arith))

-- When the patches are accepted, the new text reads back as the lines of the old text with all edits
-- done at once by their positions in it: whatever the order of the patches, each stands where it says.
pub patches_at_once :
    (source : Text) (patches : List SourcePatch) (text : Text)
    → apply_source_patches source patches ≡ ok text
    → (es : List Edit) × (edits_of (source_lines source) patches ≡ ok es)
      × (source_lines text ≡ woven es 0 (source_lines source))
patches_at_once source patches text h =
    let (es, made, separate, read) = reads_back source patches text h in
    let within = edits-is_within (source_lines source) patches es made in
    (
      es,
      made,
      read
          ∙ splice_all-woven (sort_edits es) (source_lines source)
              (descends-sort_edits (length (source_lines source)) es within separate)
              (all-sort_edits (is_within (length (source_lines source))) es ∙ within)
          ∙ woven-sort_edits es 0 (source_lines source),
    )
