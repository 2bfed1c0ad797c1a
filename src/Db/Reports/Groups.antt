-- ===== src/Db/Reports/Groups.antt =====
-- What grouping keeps of the rows, and what a select's rows are when its loop succeeds.
use mathlib.Core.List.{Permᴰ}
use llmwatch.Base.{
  ℕ, ◌+◌, Bytes, List, [], ◌∷◌, ◌++◌, append_assoc, append-nil, map, Bool, bytes_eq, ℤ, pos, ◌+ℤ◌,
  int_laws, Result, ok, err, ◌≡◌, refl, sym, ap, ap₂, ◌∙◌, arith, Bool-cases, inl, inr,
}
use llmwatch.Db.Calls.{Row}
use llmwatch.Db.Reports.{Group, Rows, add_row, group_by, scan_each, read_rows}

-- The sum of a field.
abbrev pub add_up : {A : Type 0} → (A → ℤ) → List A → ℤ
add_up f [] = pos 0
add_up f (a ∷ xs) = f a +ℤ add_up f xs

swap_sums : (a b c : ℤ) → a +ℤ (b +ℤ c) ≡ b +ℤ (a +ℤ c)
swap_sums a b c = grind int_laws

-- A sum does not depend on the order.
pub add_up-Permᴰ :
    {A : Type 0} (f : A → ℤ) {xs ys : List A} → Permᴰ xs ys → add_up f xs ≡ add_up f ys
add_up-Permᴰ f Permᴰ.nil = refl
add_up-Permᴰ f (Permᴰ.cons e p) = ap₂ (λ a b. f a +ℤ b) e (add_up-Permᴰ f p)
add_up-Permᴰ f (Permᴰ.swap {a} {b} {l = l} e d) =
    swap_sums (f a) (f b) (add_up f l) ∙ ap₂ (λ x y. f y +ℤ (f x +ℤ add_up f l)) e d
add_up-Permᴰ f (Permᴰ.trans p q) = add_up-Permᴰ f p ∙ add_up-Permᴰ f q

add_pos : (a b : ℕ) → pos a +ℤ pos b ≡ pos (a + b)
unfolding ◌+ℤ◌
add_pos a b = ground arith

-- A count of rows, `weight r` for the row `r`, adds up over the groups to the count of all rows.
module _ {F : Type 0} (count : List (Row F) → ℕ) (weight : Row F → ℕ) (nil : count [] ≡ 0)
    (cons : (r : Row F) (rows : List (Row F)) → count (r ∷ rows) ≡ weight r + count rows) where
  abbrev size : Group F → ℤ
  size (first, others) = pos (count (first ∷ others))

  add_up-add_row :
      (same : Row F → Row F → Bool) (r : Row F) (groups : List (Group F))
      → add_up size (add_row same r groups) ≡ pos (weight r) +ℤ add_up size groups
  unfolding add_row
  add_up-add_row same r [] = ap (λ n. pos n +ℤ pos 0) (cons r [] ∙ ground (arith, nil))
  add_up-add_row same r ((first, others) ∷ groups) = elim (Bool-cases (same r first)) [
    | inl joins ↦ rw (joins, cons r (first ∷ others)) (grind (int_laws, add_pos))
    | inr other ↦ rw (other, add_up-add_row same r groups) (grind int_laws)
  ]

  pub add_up-group_by :
      (same : Row F → Row F → Bool) (rows : List (Row F))
      → add_up size (group_by same rows) ≡ pos (count rows)
  unfolding group_by
  add_up-group_by same [] = ap pos (sym nil)
  add_up-group_by same (r ∷ rows) =
      add_up-add_row same r (group_by same rows)
      ∙ ap (λ n. pos (weight r) +ℤ n) (add_up-group_by same rows)
      ∙ add_pos (weight r) (count rows)
      ∙ ap pos (sym (cons r rows))

-- A loop that succeeds has read every row, and returns the rows in order.
pub scan_each_all :
    {A : Type 0} (text : Bytes) (rows : List (Result A)) (end : Result (Unit {0})) (found : List A)
    {out : List A}
    → scan_each text rows end found ≡ ok out
    → (xs : List A) × (rows ≡ map (λ a. ok a) xs) × (end ≡ ok tt) × (out ≡ found ++ xs)
unfolding scan_each
scan_each_all text [] (ok tt) found h = ([], refl, refl, ground (arith, h, append-nil found))
scan_each_all text [] (err x) found h = absurd (ground (arith, h))
scan_each_all text (err x ∷ rows) end found h = absurd (ground (arith, h))
scan_each_all text (ok a ∷ rows) end found h =
    let (xs, all, done, out) = scan_each_all text rows end (found ++ a ∷ []) h in
    (a ∷ xs, ap (λ r. ok a ∷ r) all, done, out ∙ append_assoc found (a ∷ []) xs)

pub read_rows_all :
    {A : Type 0} (query_text scan_text : Bytes) (answer : Result (Rows A)) {out : List A}
    → read_rows query_text scan_text answer ≡ ok out
    → answer ≡ ok (map (λ a. ok a) out, ok tt)
unfolding read_rows
read_rows_all query_text scan_text (err x) h = absurd (ground (arith, h))
read_rows_all query_text scan_text (ok (rows, end)) h =
    let (xs, all, done, out) = scan_each_all scan_text rows end [] h in
    ap₂ (λ r e. ok (r, e)) (all ∙ ap (map (λ a. ok a)) (sym out)) done
