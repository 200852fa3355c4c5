-- ===== src/SourcePatches/Woven.antt =====
-- src/services/source-line-patches.ts: all edits at once by position, and the order of the splices.
use hopper_pi.Prelude.{
  ℕ, suc, ◌≡◌, refl, ◌∙◌, Bool, true, false, ◌&&◌, List, [], ◌∷◌, ◌++◌, any, all, nat_eq, leb, ltb,
  arith, if◌then◌else◌,
}
use hopper_pi.SourcePatches.{Text, Edit, insert_edit, sort_edits, overlap, overlaps}
use hopper_pi.SourcePatches.ReadsBack.{all-insert_edit, all-sort_edits}

-- The lines that the edits put before the original line at position `p`.
abbrev pub new_at : ℕ → List Edit → List Text
new_at p [] = []
new_at p (e ∷ es) = if nat_eq e.start p then e.lines ++ new_at p es else new_at p es

-- The original line at position `p` is replaced or deleted.
abbrev pub is_covered : ℕ → List Edit → Bool
is_covered p es = any (λ e. leb e.start p && ltb p e.end) es

-- The original lines from position `p` on with all edits done at once, in whatever order.
unfoldable pub woven : List Edit → ℕ → List Text → List Text
woven es p [] = new_at p es
woven es p (l ∷ ls) =
    let rest = woven es (suc p) ls in new_at p es ++ (if is_covered p es then rest else l ∷ rest)

abbrev pub is_below : Edit → Edit → Bool
is_below e f = leb f.end e.start && ltb f.start e.start

abbrev pub descends : List Edit → Bool
descends [] = true
descends (e ∷ es) = all (is_below e) es && descends es

abbrev pub is_within : ℕ → Edit → Bool
is_within n e =
    leb e.start e.end
    && leb e.end n
    && (if e.is_insert then nat_eq e.start e.end else ltb e.start e.end)

-- Of two edits that do not overlap, the one with the smaller start ends there.
apart :
    (n : ℕ) (e f : Edit)
    → is_within n e ≡ true
    → is_within n f ≡ true
    → overlap e f ≡ false
    → (leb f.start e.start ≡ true → is_below e f ≡ true)
      × (leb f.start e.start ≡ false → is_below f e ≡ true)
unfolding overlap
apart n e f h k o = (λ q. ground arith, λ q. ground arith)

all_below :
    (n : ℕ) (e f : Edit) (es : List Edit)
    → is_within n e ≡ true
    → all (is_within n) es ≡ true
    → any (overlap e) es ≡ false
    → leb f.start e.start ≡ true
    → all (is_below f) es ≡ true
    → all (is_below e) es ≡ true
all_below n e f [] h k o q b = refl
all_below n e f (x ∷ es) h k o q b = ground (arith, apart n e x, all_below n e f es)

descends-insert_edit :
    (n : ℕ) (e : Edit) (es : List Edit)
    → is_within n e ≡ true
    → all (is_within n) es ≡ true
    → any (overlap e) es ≡ false
    → descends es ≡ true
    → descends (insert_edit e es) ≡ true
unfolding insert_edit
descends-insert_edit n e [] h k o d = refl
descends-insert_edit n e (f ∷ es) h k o d = ground (
  arith,
  apart n e f,
  all_below n e f es,
  descends-insert_edit n e es,
  all-insert_edit (is_below f) e es,
)

any-insert_edit :
    (q : Edit → Bool) (e : Edit) (es : List Edit) → any q (insert_edit e es) ≡ any q (e ∷ es)
unfolding insert_edit
any-insert_edit q e [] = refl
any-insert_edit q e (f ∷ es) = ground (arith, any-insert_edit q e es)

any-sort_edits : (q : Edit → Bool) (es : List Edit) → any q (sort_edits es) ≡ any q es
unfolding sort_edits
any-sort_edits q [] = refl
any-sort_edits q (e ∷ es) = ground (arith, any-insert_edit q e (sort_edits es), any-sort_edits q es)

pub descends-sort_edits :
    (n : ℕ) (es : List Edit)
    → all (is_within n) es ≡ true
    → overlaps es ≡ false
    → descends (sort_edits es) ≡ true
unfolding sort_edits overlaps
descends-sort_edits n [] h o = refl
descends-sort_edits n (e ∷ es) h o =
    descends-insert_edit n e (sort_edits es) (ground arith)
      (all-sort_edits (is_within n) es ∙ ground arith)
      (any-sort_edits (overlap e) es ∙ ground arith)
      (descends-sort_edits n es (ground arith) (ground arith))

new_at-insert_edit :
    (p : ℕ) (e : Edit) (es : List Edit) → new_at p (insert_edit e es) ≡ new_at p (e ∷ es)
unfolding insert_edit
new_at-insert_edit p e [] = refl
new_at-insert_edit p e (f ∷ es) = let ih = new_at-insert_edit p e es in ground arith

new_at-sort_edits : (p : ℕ) (es : List Edit) → new_at p (sort_edits es) ≡ new_at p es
unfolding sort_edits
new_at-sort_edits p [] = refl
new_at-sort_edits p (e ∷ es) =
    let ih = new_at-sort_edits p es in
    let ie = new_at-insert_edit p e (sort_edits es) in ground arith

pub woven-sort_edits :
    (es : List Edit) (p : ℕ) (ls : List Text) → woven (sort_edits es) p ls ≡ woven es p ls
unfolding woven
woven-sort_edits es p [] = new_at-sort_edits p es
woven-sort_edits es p (l ∷ ls) = ground (
  arith,
  new_at-sort_edits p es,
  any-sort_edits (λ e. leb e.start p && ltb p e.end) es,
  woven-sort_edits es (suc p) ls,
)
