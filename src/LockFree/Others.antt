-- ===== src/LockFree/Others.antt =====
-- myIOCP/CLockFreeStack.h: what one thread's step leaves as it is for the other threads.
use iocp_chatserver.Prelude.{
  ℕ, ◌+◌, ◌%◌, ◌^◌, ◌<◌, ◌≡◌, ◌≢◌, inl, inr, refl, true, false, List, some, arith, elem, IsDistinct,
  Bool-cases, ◌==◌,
}
use iocp_chatserver.LockFree.{
  Node, Pc, idle, push_begun, push_read, pop_begun, pop_read, pop_ready, won, System, get_ptr,
  get_stamp, combine, update, move,
}
use iocp_chatserver.LockFree.Invariant.{Knows, Linked, owned, Inv, head_in}

-- A write to a cell that neither the thread nor the stack has.
pub Knows-write :
    (heap : ℕ → Node) (top changes : ℕ) (chain values : List ℕ) (a : ℕ) (n : Node) (p : Pc)
    → Linked heap (get_ptr top) chain values
    → elem a chain ≡ false
    → owned p ≢ some a
    → Knows heap top changes chain p
    → Knows (update heap a n) top changes chain p
Knows-write heap top changes chain values a n idle l out ne k = tt
Knows-write heap top changes chain values a n (push_begun b v) l out ne k = ground (arith, k)
Knows-write heap top changes chain values a n (push_read b v old seen) l out ne k =
    ground (arith, k)
Knows-write heap top changes chain values a n pop_begun l out ne k = tt
Knows-write heap top changes chain values a n (pop_read old seen) l out ne k = k
Knows-write heap top changes chain values a n (pop_ready old next seen) l out ne k =
    (k.0, k.1, λ e. ground (arith, k.0.current, k.2 e, head_in heap (get_ptr top) chain values l))
Knows-write heap top changes chain values a n (won b v) l out ne k = ground (arith, k)

-- A change of the top.
pub Knows-swing :
    (heap : ℕ → Node) (top changes top' : ℕ) (chain chain' : List ℕ) (p : Pc)
    → ((b : ℕ) → owned p ≡ some b → elem b chain ≡ false → elem b chain' ≡ false)
    → Knows heap top changes chain p
    → Knows heap top' (changes + 1) chain' p
Knows-swing heap top changes top' chain chain' idle out k = tt
Knows-swing heap top changes top' chain chain' (push_begun b v) out k =
    ground (arith, k, out b refl)
Knows-swing heap top changes top' chain chain' (push_read b v old seen) out k =
    ground (arith, k, out b refl)
Knows-swing heap top changes top' chain chain' pop_begun out k = tt
Knows-swing heap top changes top' chain chain' (pop_read old seen) out k = ground (arith, k)
Knows-swing heap top changes top' chain chain' (pop_ready old next seen) out k = ground (arith, k)
Knows-swing heap top changes top' chain chain' (won b v) out k = ground (arith, k, out b refl)

-- The invariant after thread `i` has moved to `p`, from what holds of memory, of `p` and of the
-- other threads.
pub Inv-move :
    {s t : System} {chain values chain' values' : List ℕ} (i : ℕ) (p : Pc)
    → Inv s chain values
    → t.pc ≡ s.pc
    → Linked t.heap (get_ptr t.top) chain' values'
    → IsDistinct chain'
    → get_stamp t.top ≡ t.changes % 2 ^ 17
    → Knows t.heap t.top t.changes chain' p
    → ((j : ℕ) → j ≢ i → Knows t.heap t.top t.changes chain' (s.pc j))
    → ((j a : ℕ) → j ≢ i → owned p ≡ some a → owned (s.pc j) ≢ some a)
    → Inv (move t i p) chain' values'
Inv-move {s} {t} {chain' = chain'} i p v e linked distinct stamped mine others apart = record {
  linked = linked;
  distinct = distinct;
  stamped = stamped;
  known = λ j. elim (Bool-cases (i == j)) [
    | inl same ↦ rw same mine
    | inr other ↦ rw (other, e) (others j (ground arith))
  ];
  apart = λ j k a p q. ground (arith, e, v.apart j k a, apart j a, apart k a);
}

-- What a thread owns is live and outside the stack.
pub owned_lem :
    (heap : ℕ → Node) (top changes : ℕ) (chain : List ℕ) (p : Pc) (a : ℕ)
    → Knows heap top changes chain p
    → owned p ≡ some a
    → ((heap a).live ≡ true) × (elem a chain ≡ false)
owned_lem heap top changes chain idle a k e = cc
owned_lem heap top changes chain (push_begun b v) a k e = ground (arith, k)
owned_lem heap top changes chain (push_read b v old seen) a k e = ground (arith, k)
owned_lem heap top changes chain pop_begun a k e = cc
owned_lem heap top changes chain (pop_read old seen) a k e = cc
owned_lem heap top changes chain (pop_ready old next seen) a k e = cc
owned_lem heap top changes chain (won b v) a k e = ground (arith, k)

pub ptr_combine : (stamp ptr : ℕ) → ptr < 2 ^ 47 → get_ptr (combine stamp ptr) ≡ ptr
ptr_combine stamp ptr h = omega arith

pub stamp_combine : (stamp ptr : ℕ) → ptr < 2 ^ 47 → get_stamp (combine stamp ptr) ≡ stamp % 2 ^ 17
stamp_combine stamp ptr h = omega arith
