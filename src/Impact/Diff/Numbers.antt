-- ===== src/Impact/Diff/Numbers.antt =====
-- The header of a hunk is read as it is printed.
use sotgraph.Prelude.{
  ℕ, zero, suc, ◌+◌, ◌-◌, ◌*◌, ◌/◌, ◌%◌, ◌<◌, ◌≡◌, refl, ap, ◌∙◌, Bool, true, false, some, [], ◌∷◌,
  ◌++◌, ◌==◌, ltb, all, Bool-cases, inl, inr, arith,
}
use sotgraph.Prelude.Options.{◌>>=◌}
use sotgraph.Prelude.Strip.{all-append}
use sotgraph.Prelude.Text.{Text, strip, take_while, drop_while}
use sotgraph.Impact.Mapper.{DiffHunk}
use sotgraph.Impact.Diff.Header.{
  is_digit, value_from, expect, spaces, number, number_of, count, heading_of, read_header,
}
use sotgraph.Impact.Diff.Printed.{digits_from, digits, count_text, heading_text, header_line}

value-append :
    (n : ℕ) (s : Text) (c : ℕ) → value_from n (s ++ (c ∷ [])) ≡ value_from n s * 10 + (c - b'0')
unfolding value_from
value-append n [] c = refl
value-append n (d ∷ ds) c = value-append (n * 10 + (d - b'0')) ds c

digits_from-all : (f n : ℕ) → all is_digit (digits_from f n) ≡ true
unfolding digits_from
digits_from-all zero n = refl
digits_from-all (suc f) n =
    let last : is_digit (b'0' + n % 10) ≡ true = ground arith in
    elim (Bool-cases (ltb n 10)) [
      | inl e ↦ rw (e, last) refl
      | inr e ↦ rw e (
          all-append is_digit (digits_from f (n / 10)) ((b'0' + n % 10) ∷ [])
          ∙ rw (digits_from-all f (n / 10), last) refl)
    ]

value-digits : (f n : ℕ) → n < f → value_from 0 (digits_from f n) ≡ n
unfolding digits_from
value-digits zero n h = elim h [ ]
value-digits (suc f) n h = elim (Bool-cases (ltb n 10)) [
  | inl e ↦ rw e (unfold value_from in (ground arith))
  | inr e ↦ rw e (
      value-append 0 (digits_from f (n / 10)) (b'0' + n % 10)
      ∙ (let ih = value-digits f (n / 10) (ground arith) in ground arith))
]

take_all :
    (p : ℕ → Bool) (s : Text) (c : ℕ) (rest : Text)
    → all p s ≡ true
    → p c ≡ false
    → take_while p (s ++ (c ∷ rest)) ≡ s
take_all p [] c rest h k = rw k refl
take_all p (d ∷ ds) c rest h k = let ih = take_all p ds c rest (ground arith) k in ground arith

drop_all :
    (p : ℕ → Bool) (s : Text) (c : ℕ) (rest : Text)
    → all p s ≡ true
    → p c ≡ false
    → drop_while p (s ++ (c ∷ rest)) ≡ c ∷ rest
drop_all p [] c rest h k = rw k refl
drop_all p (d ∷ ds) c rest h k = let ih = drop_all p ds c rest (ground arith) k in ground arith

number_snoc :
    (xs : Text) (c : ℕ) (rest : Text)
    → number_of (xs ++ (c ∷ [])) rest ≡ some (value_from 0 (xs ++ (c ∷ [])), rest)
number_snoc [] c rest = refl
number_snoc (x ∷ xs) c rest = refl

number-last : (n : ℕ) (rest : Text) → number_of (digits n) rest ≡ some (n, rest)
unfolding digits digits_from
number-last n rest =
    number_snoc _ _ rest ∙ ap (λ v. some (v, rest)) (value-digits (suc n) n (omega arith))

digits-all : (n : ℕ) → all is_digit (digits n) ≡ true
unfolding digits
digits-all n = digits_from-all (suc n) n

number-digits :
    (n c : ℕ) (rest : Text)
    → is_digit c ≡ false
    → number (digits n ++ (c ∷ rest)) ≡ some (n, c ∷ rest)
unfolding number
number-digits n c rest h =
    let t = take_all is_digit (digits n) c rest (digits-all n) h in
    let d = drop_all is_digit (digits n) c rest (digits-all n) h in
    rw (t, d) (number-last n (c ∷ rest))

count-count_text : (n : ℕ) (rest : Text) → count (count_text n ++ (b' ' ∷ rest)) ≡ (n, b' ' ∷ rest)
unfolding count
count-count_text n rest = elim (Bool-cases (n == 1)) [
  | inl e ↦ rw e (ground arith)
  | inr e ↦ rw e (rw (number-digits n b' ' rest refl) refl)
]

number-count :
    (n m : ℕ) (rest : Text)
    → number (digits n ++ (count_text m ++ (b' ' ∷ rest))) ≡ some (n, count_text m ++ (b' ' ∷ rest))
number-count n m rest = elim (Bool-cases (m == 1)) [
  | inl e ↦ rw e (number-digits n b' ' rest refl)
  | inr e ↦ rw e (number-digits n b',' (digits m ++ (b' ' ∷ rest)) refl)
]

heading-text : (t : Text) → strip t ≡ t → heading_of (heading_text t) ≡ some t
unfolding heading_of
heading-text [] e = refl
heading-text (c ∷ cs) e = ap some e

pub read-header_line :
    (h : DiffHunk) (heading : Text)
    → strip heading ≡ heading
    → read_header (header_line h heading) ≡ some (h, heading)
unfolding read_header expect spaces ◌>>=◌
read-header_line h heading e =
    rw
      (
        number-count h.old_start h.old_count _,
        count-count_text h.old_count _,
        number-count h.new_start h.new_count _,
        count-count_text h.new_count _,
        heading-text heading e,
      )
      refl
