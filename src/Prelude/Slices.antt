-- ===== src/Prelude/Slices.antt =====
-- Taking, dropping and overwriting runs of an array: what `memcpy` into and out of a buffer does.
use Prim.Native.Nat.{ℕ, zero, suc, ◌+◌, ◌-◌, ◌≤◌}
use mathlib.Core.Path.{◌≡◌, refl, ap, ◌∙◌}
use mathlib.Core.List.{List, [], ◌∷◌, ◌++◌, append-nil}
use native.Mathlib.Omega.{arith}
use iocp_chatserver.Prelude.Lists.{length, take, drop, length-append, length-take, length-drop}

module _ {ℓ} {A : Type ℓ} where
  pub take-append-drop : (n : ℕ) (xs : List A) → take n xs ++ drop n xs ≡ xs
  take-append-drop zero xs = refl
  take-append-drop (suc n) [] = refl
  take-append-drop (suc n) (x ∷ xs) = ap (◌∷◌ x) (take-append-drop n xs)

  pub take-append_le : (n : ℕ) (xs ys : List A) → n ≤ length xs → take n (xs ++ ys) ≡ take n xs
  take-append_le zero xs ys h = refl
  take-append_le (suc n) [] ys h = absurd (omega arith)
  take-append_le (suc n) (x ∷ xs) ys h = ap (◌∷◌ x) (take-append_le n xs ys (omega arith))

  pub take-append_add :
      (k n : ℕ) (xs ys : List A) → k ≡ length xs + n → take k (xs ++ ys) ≡ xs ++ take n ys
  take-append_add k n [] ys e = ap (λ j. take j ys) {x = k} {y = n} (omega arith)
  take-append_add zero n (x ∷ xs) ys e = absurd (omega arith)
  take-append_add (suc k) n (x ∷ xs) ys e = ap (◌∷◌ x) (take-append_add k n xs ys (omega arith))

  pub drop-append_le :
      (n : ℕ) (xs ys : List A) → n ≤ length xs → drop n (xs ++ ys) ≡ drop n xs ++ ys
  drop-append_le zero xs ys h = refl
  drop-append_le (suc n) [] ys h = absurd (omega arith)
  drop-append_le (suc n) (x ∷ xs) ys h = drop-append_le n xs ys (omega arith)

  pub drop-append_add :
      (k n : ℕ) (xs ys : List A) → k ≡ length xs + n → drop k (xs ++ ys) ≡ drop n ys
  drop-append_add k n [] ys e = ap (λ j. drop j ys) {x = k} {y = n} (omega arith)
  drop-append_add zero n (x ∷ xs) ys e = absurd (omega arith)
  drop-append_add (suc k) n (x ∷ xs) ys e = drop-append_add k n xs ys (omega arith)

  pub take_all : (n : ℕ) (xs : List A) → length xs ≤ n → take n xs ≡ xs
  take_all zero [] h = refl
  take_all zero (x ∷ xs) h = absurd (omega arith)
  take_all (suc n) [] h = refl
  take_all (suc n) (x ∷ xs) h = ap (◌∷◌ x) (take_all n xs (omega arith))

  pub drop_all : (n : ℕ) (xs : List A) → length xs ≤ n → drop n xs ≡ []
  drop_all zero [] h = refl
  drop_all zero (x ∷ xs) h = absurd (omega arith)
  drop_all (suc n) [] h = refl
  drop_all (suc n) (x ∷ xs) h = drop_all n xs (omega arith)

  pub drop-drop : (m n k : ℕ) (xs : List A) → k ≡ n + m → drop m (drop n xs) ≡ drop k xs
  drop-drop m zero k xs e = ap (λ j. drop j xs) {x = m} {y = k} (omega arith)
  drop-drop m (suc n) zero xs e = absurd (omega arith)
  drop-drop zero (suc n) (suc k) [] e = refl
  drop-drop (suc m) (suc n) (suc k) [] e = refl
  drop-drop m (suc n) (suc k) (x ∷ xs) e = drop-drop m n k xs (omega arith)

  pub drop-take : (m n k : ℕ) (xs : List A) → k ≡ m + n → drop m (take k xs) ≡ take n (drop m xs)
  drop-take zero n k xs e = ap (λ j. take j xs) {x = k} {y = n} (omega arith)
  drop-take (suc m) n zero xs e = absurd (omega arith)
  drop-take (suc m) zero (suc k) [] e = refl
  drop-take (suc m) (suc n) (suc k) [] e = refl
  drop-take (suc m) n (suc k) (x ∷ xs) e = drop-take m n k xs (omega arith)

  pub take-take : (m n : ℕ) (xs : List A) → m ≤ n → take m (take n xs) ≡ take m xs
  take-take zero n xs h = refl
  take-take (suc m) zero xs h = absurd (omega arith)
  take-take (suc m) (suc n) [] h = refl
  take-take (suc m) (suc n) (x ∷ xs) h = ap (◌∷◌ x) (take-take m n xs (omega arith))

  -- `memcpy(xs + i, ys, length ys)`, the rest of the array unchanged.
  abbrev pub copy_at : List A → ℕ → List A → List A
  copy_at xs i ys = take i xs ++ (ys ++ drop (i + length ys) xs)

  -- `memcpy(_, xs + i, n)`
  abbrev pub slice : List A → ℕ → ℕ → List A
  slice xs i n = take n (drop i xs)

  pub length-copy_at :
      (xs : List A) (i : ℕ) (ys : List A)
      → i + length ys ≤ length xs
      → length (copy_at xs i ys) ≡ length xs
  length-copy_at xs i ys h = omega (
    arith,
    length-append (take i xs) (ys ++ drop (i + length ys) xs),
    length-append ys (drop (i + length ys) xs),
    length-take i xs,
    length-drop (i + length ys) xs,
  )

  -- What was copied in is read back,
  pub slice-copy_at :
      (xs : List A) (i n : ℕ) (ys : List A)
      → i ≤ length xs
      → n ≡ length ys
      → slice (copy_at xs i ys) i n ≡ ys
  slice-copy_at xs i n ys h e =
      rw
        (
          drop-append_add i 0 (take i xs) (ys ++ drop (i + length ys) xs)
              (omega (arith, length-take i xs)),
          take-append_add n 0 ys (drop (i + length ys) xs) (omega arith),
        )
        (append-nil ys)

  -- and what stands before it or behind it is unchanged.
  pub take-copy_at :
      (xs : List A) (i n : ℕ) (ys : List A)
      → n ≤ i
      → i ≤ length xs
      → take n (copy_at xs i ys) ≡ take n xs
  take-copy_at xs i n ys h g =
      take-append_le n (take i xs) (ys ++ drop (i + length ys) xs) (omega (arith, length-take i xs))
      ∙ take-take n i xs h

  pub drop-copy_at :
      (xs : List A) (i n : ℕ) (ys : List A)
      → i + length ys ≤ n
      → i ≤ length xs
      → drop n (copy_at xs i ys) ≡ drop n xs
  drop-copy_at xs i n ys h g =
      drop-append_add n (n - i) (take i xs) (ys ++ drop (i + length ys) xs)
        (omega (arith, length-take i xs))
      ∙ (drop-append_add (n - i) (n - i - length ys) ys (drop (i + length ys) xs) (omega arith)
          ∙ drop-drop (n - i - length ys) (i + length ys) n xs (omega arith))

  -- A run that ends where bytes are copied in grows by them.
  pub slice-copy_at_end :
      (xs : List A) (lo hi n : ℕ) (ys : List A)
      → lo ≤ hi
      → hi ≤ length xs
      → n ≡ hi - lo + length ys
      → slice (copy_at xs hi ys) lo n ≡ slice xs lo (hi - lo) ++ ys
  slice-copy_at_end xs lo hi n ys h g e =
      let rest = drop (hi + length ys) xs in
      let run = take (hi - lo) (drop lo xs) in
      ap (take n) (
        drop-append_le lo (take hi xs) (ys ++ rest) (omega (arith, length-take hi xs))
        ∙ ap (λ l. l ++ (ys ++ rest)) (drop-take lo (hi - lo) hi xs (omega arith)))
      ∙ (take-append_add n (length ys) run (ys ++ rest)
            (omega (arith, length-take (hi - lo) (drop lo xs), length-drop lo xs))
          ∙ ap (◌++◌ run) (take-append_add (length ys) 0 ys rest (omega arith) ∙ append-nil ys))
