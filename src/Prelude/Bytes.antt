-- ===== src/Prelude/Bytes.antt =====
-- Little-endian integers in memory, `memcmp`, and runs inside a concatenation.
use Prim.Native.Nat.{ℕ, zero, suc, ◌+◌, ◌*◌, ◌/◌, ◌%◌, ◌^◌, ◌<◌}
use mathlib.Core.Path.{◌≡◌, refl, ap, ap₂, ◌∙◌}
use mathlib.Core.Bool.{Bool, true, false, ◌&&◌}
use mathlib.Core.List.{List, [], ◌∷◌, ◌++◌, append-nil, append_assoc}
use native.Mathlib.Omega.{arith}
use iocp_chatserver.Prelude.Tests.{◌==◌}
use iocp_chatserver.Prelude.Lists.{length, take, drop}
use iocp_chatserver.Prelude.Slices.{copy_at, slice, take-append_add, drop-append_add}

-- The `n` low bytes of `v`.
abbrev pub le_bytes : ℕ → ℕ → List ℕ
le_bytes zero v = []
le_bytes (suc n) v = (v % 256) ∷ le_bytes n (v / 256)

abbrev pub of_le : List ℕ → ℕ
of_le [] = 0
of_le (b ∷ bs) = b + 256 * of_le bs

pub length-le_bytes : (n v : ℕ) → length (le_bytes n v) ≡ n
length-le_bytes zero v = refl
length-le_bytes (suc n) v = ap suc (length-le_bytes n (v / 256))

pub of_le-le_bytes2 : (v : ℕ) → v < 2 ^ 16 → of_le (le_bytes 2 v) ≡ v
of_le-le_bytes2 v h = omega arith

-- `memcmp(_, _, n) == 0` on runs of one length.
abbrev pub bytes_eq : List ℕ → List ℕ → Bool
bytes_eq [] [] = true
bytes_eq (x ∷ xs) (y ∷ ys) = (x == y) && bytes_eq xs ys
bytes_eq _ _ = false

pub bytes_eq_refl : (xs : List ℕ) → bytes_eq xs xs ≡ true
bytes_eq_refl [] = refl
bytes_eq_refl (x ∷ xs) = ground (arith, bytes_eq_refl xs)

pub bytes_eq→eq : (xs ys : List ℕ) → bytes_eq xs ys ≡ true → xs ≡ ys
bytes_eq→eq [] [] h = refl
bytes_eq→eq [] (y ∷ ys) h = ground arith
bytes_eq→eq (x ∷ xs) [] h = ground arith
bytes_eq→eq (x ∷ xs) (y ∷ ys) h = ground (arith, bytes_eq→eq xs ys)

module _ {ℓ} {A : Type ℓ} where
  pub take-append_self : (n : ℕ) (a b : List A) → n ≡ length a → take n (a ++ b) ≡ a
  take-append_self n a b e = take-append_add n 0 a b (omega arith) ∙ append-nil a

  pub drop-append_self : (n : ℕ) (a b : List A) → n ≡ length a → drop n (a ++ b) ≡ b
  drop-append_self n a b e = drop-append_add n 0 a b (omega arith)

  pub slice-mid :
      (k n : ℕ) (a b c : List A) → k ≡ length a → n ≡ length b → slice (a ++ (b ++ c)) k n ≡ b
  slice-mid k n a b c e f = ap (take n) (drop-append_self k a (b ++ c) e) ∙ take-append_self n b c f

  pub copy_at-mid :
      (k : ℕ) (a b b' c : List A)
      → k ≡ length a
      → length b' ≡ length b
      → copy_at (a ++ (b ++ c)) k b' ≡ a ++ (b' ++ c)
  copy_at-mid k a b b' c e f = ap₂ ◌++◌ (take-append_self k a (b ++ c) e) (
      ap (◌++◌ b') (
        drop-append_add (k + length b') (length b) a (b ++ c) (omega arith)
        ∙ drop-append_self (length b) b c refl))

  pub slice-append_add :
      (k j n : ℕ) (a b : List A) → k ≡ length a + j → slice (a ++ b) k n ≡ slice b j n
  slice-append_add k j n a b e = ap (take n) (drop-append_add k j a b e)

  pub copy_at-append_add :
      (k j : ℕ) (a b ys : List A) → k ≡ length a + j → copy_at (a ++ b) k ys ≡ a ++ copy_at b j ys
  copy_at-append_add k j a b ys e =
      ap₂ ◌++◌ (take-append_add k j a b e)
        (ap (◌++◌ ys) (drop-append_add (k + length ys) (j + length ys) a b (omega arith)))
      ∙ append_assoc a (take j b) (ys ++ drop (j + length ys) b)
