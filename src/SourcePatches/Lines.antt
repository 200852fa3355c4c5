-- ===== src/SourcePatches/Lines.antt =====
-- src/services/source-line-patches.ts: lines, and the text that they are read from.
use hopper_pi.Prelude.{
  ℕ, ◌≡◌, ◌≢◌, refl, Bool-cases, inl, inr, ap, ◌∙◌, Bool, true, false, ◌||◌, not, List, [], ◌∷◌,
  ◌++◌, any, all, nat_eq, arith,
}
use hopper_pi.SourcePatches.{
  Text, new_line, before_first, split_lines, join_lines, ends_with_new_line, drop_last,
  source_lines, has_empty_last, render,
}

abbrev pub is_line : Text → Bool
is_line l = not (any (λ c. nat_eq c new_line) l)

split_line : (l : Text) → is_line l ≡ true → split_lines l ≡ l ∷ []
unfolding split_lines
split_line [] h = refl
split_line (c ∷ l) h = let ih = split_line l in ground arith

split_line-append :
    (l s : Text) → is_line l ≡ true → split_lines (l ++ new_line ∷ s) ≡ l ∷ split_lines s
unfolding split_lines
split_line-append [] s h = refl
split_line-append (c ∷ l) s h = let ih = split_line-append l s in ground arith

split-join :
    (l : Text) (ls : List Text)
    → all is_line (l ∷ ls) ≡ true
    → split_lines (join_lines (l ∷ ls)) ≡ l ∷ ls
unfolding join_lines
split-join l [] h = split_line l (ground arith)
split-join l (m ∷ ls) h = ground (arith, split_line-append l (join_lines (m ∷ ls)), split-join m ls)

all-before_first :
    (c : ℕ) (ls : List Text)
    → nat_eq c new_line ≡ false
    → all is_line ls ≡ true
    → all is_line (before_first c ls) ≡ true
all-before_first c [] n h = ground arith
all-before_first c (l ∷ ls) n h = ground arith

pub split_lines-all : (s : Text) → all is_line (split_lines s) ≡ true
unfolding split_lines
split_lines-all [] = refl
split_lines-all (c ∷ s) = ground (arith, split_lines-all s, all-before_first c (split_lines s))

pub source_lines-all : (s : Text) → all is_line (source_lines s) ≡ true
unfolding source_lines
source_lines-all [] = refl
source_lines-all (c ∷ s) = split_lines-all _

ends_with-append : (s : Text) → ends_with_new_line (s ++ new_line ∷ []) ≡ true
unfolding ends_with_new_line
ends_with-append [] = refl
ends_with-append (c ∷ []) = refl
ends_with-append (c ∷ d ∷ s) = ends_with-append (d ∷ s)

drop_last-append : (s : Text) (c : ℕ) → drop_last (s ++ c ∷ []) ≡ s
unfolding drop_last
drop_last-append [] c = refl
drop_last-append (b ∷ []) c = refl
drop_last-append (b ∷ d ∷ s) c = ap (λ x. b ∷ x) (drop_last-append (d ∷ s) c)

source_lines_terminated : (s : Text) → source_lines (s ++ new_line ∷ []) ≡ split_lines s
unfolding source_lines ends_with_new_line drop_last
source_lines_terminated [] = refl
source_lines_terminated (c ∷ s) =
    ground (arith, ends_with-append (c ∷ s), ap split_lines (drop_last-append (c ∷ s) new_line))

source_lines_open :
    (s : Text) → s ≢ [] → ends_with_new_line s ≡ false → source_lines s ≡ split_lines s
unfolding source_lines
source_lines_open [] n h = ground (arith, n refl)
source_lines_open (c ∷ s) n h = ground arith

ends_with_line : (l : Text) → is_line l ≡ true → ends_with_new_line l ≡ false
unfolding ends_with_new_line
ends_with_line [] h = refl
ends_with_line (c ∷ []) h = ground arith
ends_with_line (c ∷ d ∷ l) h = ends_with_line (d ∷ l) (ground arith)

ends_with-append_text : (l s : Text) → s ≢ [] → ends_with_new_line (l ++ s) ≡ ends_with_new_line s
unfolding ends_with_new_line
ends_with-append_text [] s n = refl
ends_with-append_text (c ∷ []) [] n = ground (arith, n refl)
ends_with-append_text (c ∷ []) (d ∷ s) n = refl
ends_with-append_text (c ∷ d ∷ l) s n = ends_with-append_text (d ∷ l) s n

append_nil : (s : Text) → s ++ [] ≡ s
append_nil [] = refl
append_nil (c ∷ s) = ap (λ x. c ∷ x) (append_nil s)

-- Lines of which the last is not empty make a text that is not empty and not terminated.
open_text :
    (l : Text) (ls : List Text)
    → all is_line (l ∷ ls) ≡ true
    → has_empty_last (l ∷ ls) ≡ false
    → (join_lines (l ∷ ls) ≢ []) × (ends_with_new_line (join_lines (l ∷ ls)) ≡ false)
unfolding join_lines has_empty_last ends_with_new_line
open_text [] [] a h = ground arith
open_text (c ∷ l) [] a h = (ground arith, ends_with_line (c ∷ l) (ground arith))
open_text [] (m ∷ ls) a h =
    let (nonempty, unended) = open_text m ls (ground arith) h in
    (ground arith, ends_with-append_text (new_line ∷ []) (join_lines (m ∷ ls)) nonempty ∙ unended)
open_text (c ∷ l) (m ∷ ls) a h =
    let (nonempty, unended) = open_text m ls (ground arith) h in
    let text : Text = join_lines (m ∷ ls) in
    (
      ground arith,
      ends_with-append_text (c ∷ l) (new_line ∷ text) (ground arith)
          ∙ ends_with-append_text (new_line ∷ []) text nonempty
          ∙ unended,
    )

pub source_lines-render :
    (terminated : Bool) (ls : List Text)
    → all is_line ls ≡ true
    → source_lines (render terminated ls) ≡ ls
unfolding render source_lines
source_lines-render t [] a = refl
source_lines-render t (l ∷ ls) a = elim (Bool-cases (t || has_empty_last (l ∷ ls))) [
  | inl e ↦ ground (arith, source_lines_terminated (join_lines (l ∷ ls)), split-join l ls a)
  | inr e ↦
      let (nonempty, unended) = open_text l ls a (ground arith) in
      ground (
        arith,
        append_nil (join_lines (l ∷ ls)),
        source_lines_open (join_lines (l ∷ ls)) nonempty unended,
        split-join l ls a,
      )
]
