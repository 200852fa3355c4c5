-- ===== src/SourcePatches/Tests.antt =====
-- Edits of a short text.
use hopper_pi.Prelude.{◌≡◌, refl, false, List, [], ◌∷◌, none}
use hopper_pi.SourcePatches.{
  Text, SourcePatch, insert, replace, delete, ok, Edit, edits_of, edit_of, source_lines,
  split_lines, splice, splice_all, insert_edit, sort_edits, overlap, overlaps, apply_source_patches,
  join_lines, ends_with_new_line, drop_last, are_single, has_empty_last, render,
}
use hopper_pi.SourcePatches.Woven.{woven}
use hopper_pi.SourcePatches.Simultaneous.{patches_at_once}
use hopper_pi.SourcePatches.ReadsBack.{reads_back}

-- "a\nb\nc"
abbrev source : Text
source = 97 ∷ 10 ∷ 98 ∷ 10 ∷ 99 ∷ []

abbrev patches : List SourcePatch
patches = delete 3 3 none ∷ insert 0 ((120 ∷ []) ∷ []) ∷ replace 2 2 none ([] ∷ []) ∷ []

abbrev patched : Text
patched = 120 ∷ 10 ∷ 97 ∷ 10 ∷ 10 ∷ []

reads_back_example :
    (es : List Edit) × (edits_of (source_lines source) patches ≡ ok es)
    × (overlaps es ≡ false)
    × (source_lines patched ≡ splice_all (sort_edits es) (source_lines source))
unfolding source_lines split_lines edits_of edit_of overlap overlaps insert_edit sort_edits splice
    splice_all apply_source_patches join_lines ends_with_new_line drop_last are_single
    has_empty_last render
reads_back_example = reads_back source patches patched refl

patches_at_once_example :
    (es : List Edit) × (edits_of (source_lines source) patches ≡ ok es)
    × (source_lines patched ≡ woven es 0 (source_lines source))
unfolding source_lines split_lines edits_of edit_of overlap overlaps insert_edit sort_edits splice
    splice_all apply_source_patches join_lines ends_with_new_line drop_last are_single
    has_empty_last render
patches_at_once_example = patches_at_once source patches patched refl
