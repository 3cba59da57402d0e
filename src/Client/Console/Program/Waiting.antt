-- ===== src/Client/Console/Program/Waiting.antt =====
-- DummyClient/DummyClient.cpp: the end of `RunAuto`, which waits for its bots, and the changes that
-- `StatThread` prints.
use iocp_chatserver.Prelude.{
  ℕ, zero, suc, ◌+◌, ◌-◌, ◌*◌, ◌≤◌, ◌<◌, ◌≡◌, refl, ap, ◌∙◌, append-nil, Bool-cases, inl, inr, List,
  [], ◌∷◌, ◌++◌, arith, ltb,
}
use iocp_chatserver.Client.Console.Program.{batch_size, batches}

-- So many handles from one on.
unfoldable pub handles : ℕ → ℕ → List ℕ
handles off zero = []
handles off (suc n) = off ∷ handles (off + 1) n

abbrev pub all_handles : List (ℕ × ℕ) → List ℕ
all_handles [] = []
all_handles ((off, cnt) ∷ calls) = handles off cnt ++ all_handles calls

abbrev pub AllShort : List (ℕ × ℕ) → Type 0
AllShort [] = Unit
AllShort ((off, cnt) ∷ calls) = (0 < cnt) × (cnt ≤ 64) × AllShort calls

handles-append : (off m n : ℕ) → handles off m ++ handles (off + m) n ≡ handles off (m + n)
unfolding handles
handles-append off zero n =
    ap (λ o. handles o n) {x = off + 0} {y = off} (omega arith)
    ∙ ap (handles off) {x = n} {y = 0 + n} (omega arith)
handles-append off (suc m) n =
    ap (◌∷◌ off) (
      ap (λ o. handles (off + 1) m ++ handles o n) {x = off + suc m} {y = off + 1 + m} (omega arith)
      ∙ handles-append (off + 1) m n)
    ∙ ap (handles off) {x = suc (m + n)} {y = suc m + n} (omega arith)

batches-done : (fuel off n : ℕ) → n ≤ off → batches fuel off n ≡ []
unfolding batches
batches-done zero off n h = refl
batches-done (suc fuel) off n h = ground arith

-- From any handle on, with a round for each 64 that are left: each of them is waited for once, in
-- order, by calls that name at least one and at most 64 handles, which is the most that
-- `WaitForMultipleObjects` takes.
pub batches_lem :
    (fuel off n : ℕ)
    → n ≤ off + 64 * fuel
    → (all_handles (batches fuel off n) ≡ handles off (n - off)) × AllShort (batches fuel off n)
unfolding batches handles
batches_lem zero off n h = (ap (handles off) {x = 0} {y = n - off} (omega arith), tt)
batches_lem (suc fuel) off n h = elim (Bool-cases (ltb off n)) [
  | inr none_left ↦
      rw (none_left, batches)
        (ap (handles off) {x = 0} {y = n - off} (ground (arith, none_left)), tt)
  | inl more ↦ elim (Bool-cases (ltb (n - off) batch_size)) [
    | inl last ↦
        let done = batches-done fuel (off + 64) n (ground (arith, last)) in
        rw (more, batches, last, done)
          (append-nil (handles off (n - off)), (ground (arith, more), ground (arith, last), tt))
    | inr full ↦
        let (rest, short) = batches_lem fuel (off + 64) n (omega (arith, h)) in
        rw (more, batches, full)
          (
            ap (λ l. handles off 64 ++ l) rest
                ∙ (handles-append off 64 (n - (off + 64))
                    ∙ ap (handles off) {x = 64 + (n - (off + 64))} {y = n - off}
                        (ground (arith, full))),
            (omega arith, omega arith, short),
          )
  ]
]
