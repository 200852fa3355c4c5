-- ===== src/SourcePatches/Splices.antt =====
-- src/services/source-line-patches.ts: splices in front of lines that they do not touch.
use hopper_pi.Prelude.{
  ℕ, zero, suc, ◌+◌, ◌-◌, ◌≤◌, ◌≡◌, refl, sym, ap, ◌∙◌, Bool, true, ◌&&◌, List, [], ◌∷◌, ◌++◌, all,
  leb, arith, length,
}
use hopper_pi.SourcePatches.{Text, Edit, take, drop, splice, splice_all}
use hopper_pi.SourcePatches.Woven.{is_below, descends}

pub append_assoc : (xs ys zs : List Text) → (xs ++ ys) ++ zs ≡ xs ++ (ys ++ zs)
append_assoc [] ys zs = refl
append_assoc (x ∷ xs) ys zs = ap (λ r. x ∷ r) (append_assoc xs ys zs)

pub append_nil : (xs : List Text) → xs ++ [] ≡ xs
append_nil [] = refl
append_nil (x ∷ xs) = ap (λ r. x ∷ r) (append_nil xs)

take-append : (n : ℕ) (xs ys : List Text) → n ≤ length xs → take n (xs ++ ys) ≡ take n xs
take-append zero xs ys h = refl
take-append (suc n) [] ys h = ground arith
take-append (suc n) (x ∷ xs) ys h = ap (λ r. x ∷ r) (take-append n xs ys (omega arith))

drop-append : (n : ℕ) (xs ys : List Text) → n ≤ length xs → drop n (xs ++ ys) ≡ drop n xs ++ ys
drop-append zero xs ys h = refl
drop-append (suc n) [] ys h = ground arith
drop-append (suc n) (x ∷ xs) ys h = drop-append n xs ys (omega arith)

pub length-take : (n : ℕ) (xs : List Text) → n ≤ length xs → length (take n xs) ≡ n
length-take zero xs h = refl
length-take (suc n) [] h = omega arith
length-take (suc n) (x ∷ xs) h = ap suc (length-take n xs (omega arith))

length-drop : (n : ℕ) (xs : List Text) → length (drop n xs) ≡ length xs - n
length-drop zero xs = omega arith
length-drop (suc n) [] = omega arith
length-drop (suc n) (x ∷ xs) = omega (arith, length-drop n xs)

-- Edits that end by `n` leave what stands from `n` on.
abbrev pub ends_by : ℕ → Edit → Bool
ends_by n e = leb e.start e.end && leb e.end n

splice-front :
    (e : Edit) (xs ys : List Text)
    → ends_by (length xs) e ≡ true
    → splice e (xs ++ ys) ≡ splice e xs ++ ys
unfolding splice
splice-front e xs ys h =
    ap (λ r. r ++ e.lines ++ drop (e.end - e.start) (drop e.start (xs ++ ys)))
      (take-append e.start xs ys (ground arith))
    ∙ ap (λ r. take e.start xs ++ e.lines ++ drop (e.end - e.start) r)
        (drop-append e.start xs ys (ground arith))
    ∙ ap (λ r. take e.start xs ++ e.lines ++ r)
        (drop-append (e.end - e.start) (drop e.start xs) ys
          (ground (arith, length-drop e.start xs)))
    ∙ sym (append_assoc (take e.start xs ++ e.lines) (drop (e.end - e.start) (drop e.start xs)) ys)

length-append : (xs ys : List Text) → length (xs ++ ys) ≡ length xs + length ys
length-append [] ys = omega arith
length-append (x ∷ xs) ys = omega (arith, length-append xs ys)

pub ends_before :
    (n m : ℕ) (e : Edit) (es : List Edit)
    → all (is_below e) es ≡ true
    → all (ends_by n) es ≡ true
    → leb e.start m ≡ true
    → all (ends_by m) es ≡ true
ends_before n m e [] b w h = refl
ends_before n m e (f ∷ es) b w h = ground (arith, ends_before n m e es)

length-splice :
    (e : Edit) (xs : List Text)
    → ends_by (length xs) e ≡ true
    → leb e.start (length (splice e xs)) ≡ true
unfolding splice
length-splice e xs h = ground (
  arith,
  length-append (take e.start xs ++ e.lines) (drop (e.end - e.start) (drop e.start xs)),
  length-append (take e.start xs) e.lines,
  length-take e.start xs,
)

pub splice_all-front :
    (es : List Edit) (xs ys : List Text)
    → descends es ≡ true
    → all (ends_by (length xs)) es ≡ true
    → splice_all es (xs ++ ys) ≡ splice_all es xs ++ ys
unfolding splice_all
splice_all-front [] xs ys d h = refl
splice_all-front (e ∷ es) xs ys d h =
    ap (splice_all es) (splice-front e xs ys (ground arith))
    ∙ splice_all-front es (splice e xs) ys (ground arith) (
        ends_before (length xs) (length (splice e xs)) e es (ground arith) (ground arith)
          (length-splice e xs (ground arith)))
