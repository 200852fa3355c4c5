-- ===== src/SourcePatches.antt =====
-- src/services/source-line-patches.ts: edits of a script by lines of its original text. A text is the
-- list of its UTF-16 code units. A position is a natural number, since `integer` refuses all else.
pub mod Lines
pub mod ReadsBack
pub mod Woven
pub mod Splices
pub mod Simultaneous
mod Tests
use hopper_pi.Prelude.{
  ℕ, zero, suc, Bool, true, false, ◌&&◌, ◌||◌, not, Option, none, some, List, [], ◌∷◌, ◌++◌, any,
  length, leb, ltb, nat_eq, if◌then◌else◌, ◌-◌,
}

abbrev pub Text : Type 0
Text = List ℕ

abbrev pub new_line : ℕ
new_line = 10

-- `c` before the first line.
abbrev pub before_first : ℕ → List Text → List Text
before_first c [] = (c ∷ []) ∷ []
before_first c (l ∷ ls) = (c ∷ l) ∷ ls

-- source.split("\n")
unfoldable pub split_lines : Text → List Text
split_lines [] = [] ∷ []
split_lines (c ∷ rest) =
    let lines = split_lines rest in if nat_eq c new_line then [] ∷ lines else before_first c lines

-- lines.join("\n")
unfoldable pub join_lines : List Text → Text
join_lines [] = []
join_lines (l ∷ []) = l
join_lines (l ∷ m ∷ rest) = l ++ new_line ∷ join_lines (m ∷ rest)

-- source.endsWith("\n")
unfoldable pub ends_with_new_line : Text → Bool
ends_with_new_line [] = false
ends_with_new_line (c ∷ []) = nat_eq c new_line
ends_with_new_line (c ∷ d ∷ rest) = ends_with_new_line (d ∷ rest)

-- source.slice(0, -1)
unfoldable pub drop_last : Text → Text
drop_last [] = []
drop_last (c ∷ []) = []
drop_last (c ∷ d ∷ rest) = c ∷ drop_last (d ∷ rest)

-- A trailing newline is a separator after the final line, not an extra editable line.
unfoldable pub source_lines : Text → List Text
source_lines [] = []
source_lines (c ∷ rest) =
    split_lines (if ends_with_new_line (c ∷ rest) then drop_last (c ∷ rest) else c ∷ rest)

pub data SourcePatch : Type 0 where
  insert : ℕ → List Text → SourcePatch
  replace : ℕ → ℕ → Option Text → List Text → SourcePatch
  delete : ℕ → ℕ → Option Text → SourcePatch

pub data ErrorCode : Type 0 where
  invalid_patch invalid_input text_conflict overlapping_patches : ErrorCode

pub data Result (A : Type 0) : Type 0 where
  ok : A → Result A
  fail : ErrorCode → Result A

abbrev ◌>>=◌ : {A B : Type 0} → Result A → (A → Result B) → Result B

infixl 10 ◌>>=◌ ◌>>◌
ok a >>= f = f a
fail e >>= f = fail e

abbrev ◌>>◌ : {A B : Type 0} → Result A → Result B → Result B
m >> n = m >>= λ _. n

-- if (!test) fail(code)
abbrev demand : Bool → ErrorCode → Result (Unit {0})
demand true e = ok tt
demand false e = fail e

pub record Edit : Type 0 where
  pub start : ℕ
  pub end : ℕ
  pub is_insert : Bool
  pub lines : List Text

-- /[\r\n]/
abbrev pub is_break : ℕ → Bool
is_break c = nat_eq c 10 || nat_eq c 13

unfoldable pub are_single : List Text → Bool
are_single lines = not (any (λ l. any is_break l) lines)

integer : ℕ → ℕ → ℕ → Result (Unit {0})
integer value min max = demand (leb min value && leb value max) invalid_input

unfoldable pub text_eq : Text → Text → Bool
text_eq [] [] = true
text_eq (c ∷ s) (d ∷ t) = nat_eq c d && text_eq s t
text_eq _ _ = false

abbrev pub take : ℕ → List Text → List Text
take zero ls = []
take (suc n) [] = []
take (suc n) (l ∷ ls) = l ∷ take n ls

abbrev pub drop : ℕ → List Text → List Text
drop zero ls = ls
drop (suc n) [] = []
drop (suc n) (l ∷ ls) = drop n ls

-- The lines from `start` on, before `end`.
unfoldable pub slice : ℕ → ℕ → List Text → List Text
slice start end lines = take (end - start) (drop start lines)

is_expected : Option Text → ℕ → ℕ → List Text → Bool
is_expected none start end lines = true
is_expected (some expected) start end lines = text_eq expected (join_lines (slice start end lines))

span : ℕ → ℕ → Option Text → List Text → List Text → Result Edit
unfolding integer is_expected
span start_line end_line expected new_lines lines = do
  integer start_line 1 (length lines)
  integer end_line start_line (length lines)
  demand (is_expected expected (start_line - 1) end_line lines) text_conflict
  ok (record { start = start_line - 1; end = end_line; is_insert = false; lines = new_lines })

unfoldable pub edit_of : List Text → SourcePatch → Result Edit
unfolding span integer
edit_of lines (insert after_line new_lines) = do
  demand (are_single new_lines) invalid_patch
  integer after_line 0 (length lines)
  ok (record { start = after_line; end = after_line; is_insert = true; lines = new_lines })
edit_of lines (replace start_line end_line expected new_lines) = do
  demand (are_single new_lines) invalid_patch
  span start_line end_line expected new_lines lines
edit_of lines (delete start_line end_line expected) = span start_line end_line expected [] lines

unfoldable pub edits_of : List Text → List SourcePatch → Result (List Edit)
edits_of lines [] = ok []
edits_of lines (p ∷ ps) = do e ← edit_of lines p; es ← edits_of lines ps; ok (e ∷ es)

unfoldable pub overlap : Edit → Edit → Bool
overlap a b =
    if a.is_insert && b.is_insert
    then nat_eq a.start b.start
    else if a.is_insert
    then leb b.start a.start && ltb a.start b.end
    else if b.is_insert
    then leb a.start b.start && ltb b.start a.end
    else ltb a.start b.end && ltb b.start a.end

unfoldable pub overlaps : List Edit → Bool
overlaps [] = false
overlaps (e ∷ es) = any (overlap e) es || overlaps es

-- A stable sort by falling start.
unfoldable pub insert_edit : Edit → List Edit → List Edit
insert_edit e [] = e ∷ []
insert_edit e (f ∷ fs) =
    let rest = insert_edit e fs in if leb f.start e.start then e ∷ f ∷ fs else f ∷ rest

unfoldable pub sort_edits : List Edit → List Edit
sort_edits [] = []
sort_edits (e ∷ es) = insert_edit e (sort_edits es)

-- lines.splice(e.start, e.end - e.start, ...e.lines)
unfoldable pub splice : Edit → List Text → List Text
splice e lines = take e.start lines ++ e.lines ++ drop (e.end - e.start) (drop e.start lines)

unfoldable pub splice_all : List Edit → List Text → List Text
splice_all [] lines = lines
splice_all (e ∷ es) lines = splice_all es (splice e lines)

-- lines.at(-1) === ""
unfoldable pub has_empty_last : List Text → Bool
has_empty_last [] = false
has_empty_last ([] ∷ []) = true
has_empty_last ((c ∷ l) ∷ []) = false
has_empty_last (l ∷ m ∷ rest) = has_empty_last (m ∷ rest)

-- A final empty logical line needs its own separator, even in unterminated source.
unfoldable pub render : Bool → List Text → Text
render terminated [] = []
render terminated (l ∷ ls) =
    join_lines (l ∷ ls) ++ (if terminated || has_empty_last (l ∷ ls) then new_line ∷ [] else [])

unfoldable pub apply_source_patches : Text → List SourcePatch → Result Text
apply_source_patches source patches = do
  edits ← edits_of (source_lines source) patches
  demand (not (overlaps edits)) overlapping_patches
  ok (render (ends_with_new_line source) (splice_all (sort_edits edits) (source_lines source)))
