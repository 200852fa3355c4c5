-- ===== src/SourcePatches/ReadsBack.antt =====
-- src/services/source-line-patches.ts: reading an edited text back.
use hopper_pi.Prelude.{
  ℕ, zero, suc, ◌-◌, ◌≡◌, refl, ◌∙◌, Bool, true, false, List, [], ◌∷◌, ◌++◌, any, all, arith, inl,
  inr, ◌⊎◌,
}
use hopper_pi.SourcePatches.{
  Text, is_break, SourcePatch, insert, replace, delete, ErrorCode, Result, ok, fail, Edit,
  are_single, edit_of, edits_of, source_lines, take, drop, splice, splice_all, insert_edit,
  sort_edits, overlaps, ends_with_new_line, apply_source_patches,
}
use hopper_pi.SourcePatches.Lines.{is_line, source_lines-all, source_lines-render}

unbroken : (l : Text) → any is_break l ≡ false → is_line l ≡ true
unbroken [] h = refl
unbroken (c ∷ l) h = ground (arith, unbroken l)

single_lines : (ls : List Text) → are_single ls ≡ true → all is_line ls ≡ true
unfolding are_single
single_lines [] h = refl
single_lines (l ∷ ls) h = ground (arith, unbroken l, single_lines ls)

abbrev has_lines : Edit → Bool
has_lines e = all is_line e.lines

edit_lines :
    (ls : List Text) (p : SourcePatch) (e : Edit) → edit_of ls p ≡ ok e → has_lines e ≡ true
unfolding edit_of
edit_lines ls (insert a new) e h = ground (arith, single_lines new)
edit_lines ls (replace a b x new) e h = ground (arith, single_lines new)
edit_lines ls (delete a b x) e h = ground arith

pub Result-cases :
    {A : Type 0} (r : Result A) → ((c : ErrorCode) × (r ≡ fail c)) ⊎ ((a : A) × (r ≡ ok a))
Result-cases (ok a) = inr (a, refl)
Result-cases (fail e) = inl (e, refl)

edits_lines :
    (ls : List Text) (ps : List SourcePatch) (es : List Edit)
    → edits_of ls ps ≡ ok es
    → all has_lines es ≡ true
unfolding edits_of
edits_lines ls [] es h = ground arith
edits_lines ls (p ∷ ps) es h = elim (Result-cases (edit_of ls p)) [
  | inl (c, f) ↦ ground arith
  | inr (e, f) ↦ elim (Result-cases (edits_of ls ps)) [
    | inl (c, g) ↦ ground arith
    | inr (fs, g) ↦ ground (arith, edit_lines ls p e f, edits_lines ls ps fs g)
  ]
]

module _ {ℓ} {A : Type ℓ} (q : A → Bool) where
  pub all-append : (xs ys : List A) → all q xs ≡ true → all q ys ≡ true → all q (xs ++ ys) ≡ true
  all-append [] ys h k = k
  all-append (x ∷ xs) ys h k = ground (arith, all-append xs ys)

module _ (q : Text → Bool) where
  all-take : (n : ℕ) (xs : List Text) → all q xs ≡ true → all q (take n xs) ≡ true
  all-take zero xs h = refl
  all-take (suc n) [] h = refl
  all-take (suc n) (x ∷ xs) h = ground (arith, all-take n xs)

  all-drop : (n : ℕ) (xs : List Text) → all q xs ≡ true → all q (drop n xs) ≡ true
  all-drop zero xs h = h
  all-drop (suc n) [] h = refl
  all-drop (suc n) (x ∷ xs) h = all-drop n xs (ground arith)

pub all-insert_edit :
    (q : Edit → Bool) (e : Edit) (es : List Edit) → all q (insert_edit e es) ≡ all q (e ∷ es)
unfolding insert_edit
all-insert_edit q e [] = refl
all-insert_edit q e (f ∷ es) = ground (arith, all-insert_edit q e es)

pub all-sort_edits : (q : Edit → Bool) (es : List Edit) → all q (sort_edits es) ≡ all q es
unfolding sort_edits
all-sort_edits q [] = refl
all-sort_edits q (e ∷ es) = ground (arith, all-insert_edit q e (sort_edits es), all-sort_edits q es)

splice_lines :
    (e : Edit) (ls : List Text)
    → has_lines e ≡ true
    → all is_line ls ≡ true
    → all is_line (splice e ls) ≡ true
unfolding splice
splice_lines e ls h a =
    all-append is_line (take e.start ls ++ e.lines) _
      (all-append is_line (take e.start ls) e.lines (all-take is_line e.start ls a) h)
      (all-drop is_line (e.end - e.start) _ (all-drop is_line e.start ls a))

splice_all_lines :
    (es : List Edit) (ls : List Text)
    → all has_lines es ≡ true
    → all is_line ls ≡ true
    → all is_line (splice_all es ls) ≡ true
unfolding splice_all
splice_all_lines [] ls h a = a
splice_all_lines (e ∷ es) ls h a =
    splice_all_lines es (splice e ls) (ground arith) (splice_lines e ls (ground arith) a)

-- When the patches are accepted, the new text reads back as exactly the lines of the old text after
-- the edits, also where lines are empty and whether or not the old text was terminated; and no two of
-- the edits overlap.
pub reads_back :
    (source : Text) (patches : List SourcePatch) (text : Text)
    → apply_source_patches source patches ≡ ok text
    → (es : List Edit) × (edits_of (source_lines source) patches ≡ ok es)
      × (overlaps es ≡ false)
      × (source_lines text ≡ splice_all (sort_edits es) (source_lines source))
unfolding apply_source_patches
reads_back source patches text h = elim (Result-cases (edits_of (source_lines source) patches)) [
  | inl (c, f) ↦ ground arith
  | inr (es, f) ↦
      let edited =
        splice_all_lines (sort_edits es) (source_lines source)
          (all-sort_edits has_lines es ∙ edits_lines (source_lines source) patches es f)
          (source_lines-all source) in
      (
        es,
        f,
        ground arith,
        ground (
          arith,
          source_lines-render (ends_with_new_line source)
              (splice_all (sort_edits es) (source_lines source)) edited,
        ),
      )
]
