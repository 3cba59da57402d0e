-- ===== src/LockFree/Invariant.antt =====
-- myIOCP/CLockFreeStack.h: which nodes are in the stack, which a thread has to itself, and what a
-- thread knows of the top that it read.
use iocp_chatserver.Prelude.{
  ℕ, ◌%◌, ◌^◌, ◌≤◌, ◌<◌, ◌≡◌, ◌≢◌, refl, true, false, List, [], ◌∷◌, Option, none, some, arith,
  elem, IsDistinct,
}
use iocp_chatserver.LockFree.{
  Node, Pc, idle, push_begun, push_read, pop_begun, pop_read, pop_ready, won, System, get_ptr,
  get_stamp, update,
}

-- The list in memory from a pointer on, with the addresses and the values of its nodes.
abbrev pub Linked : (ℕ → Node) → ℕ → List ℕ → List ℕ → Type 0
Linked heap ptr [] [] = ptr ≡ 0
Linked heap ptr (a ∷ as') (v ∷ vs) =
    (ptr ≡ a)
    × (0 < a)
    × (a < 2 ^ 47)
    × ((heap a).live ≡ true)
    × ((heap a).value ≡ v)
    × Linked heap (heap a).next as' vs
Linked heap ptr _ _ = ⊥

-- A node that a thread has to itself.
pub record IsOwned (heap : ℕ → Node) (chain : List ℕ) (node value : ℕ) : Type 0 where
  pub alive : (heap node).live ≡ true
  pub holds : (heap node).value ≡ value
  pub outside : elem node chain ≡ false
  pub nonnull : 0 < node
  pub small : node < 2 ^ 47

-- A top that was read when `seen` changes had been made.
pub record IsSeen (top changes old seen : ℕ) : Type 0 where
  pub earlier : seen ≤ changes
  pub stamp : get_stamp old ≡ seen % 2 ^ 17
  pub current : seen ≡ changes → old ≡ top

abbrev pub Knows : (ℕ → Node) → ℕ → ℕ → List ℕ → Pc → Type 0
Knows heap top changes chain idle = Unit {0}
Knows heap top changes chain (push_begun node value) = IsOwned heap chain node value
Knows heap top changes chain (push_read node value old seen) =
    IsOwned heap chain node value × IsSeen top changes old seen × ((heap node).next ≡ get_ptr old)
Knows heap top changes chain pop_begun = Unit {0}
Knows heap top changes chain (pop_read old seen) = IsSeen top changes old seen × (get_ptr old ≢ 0)
Knows heap top changes chain (pop_ready old next seen) =
    IsSeen top changes old seen
    × (get_ptr old ≢ 0)
    × (seen ≡ changes → next ≡ (heap (get_ptr old)).next)
Knows heap top changes chain (won node value) = IsOwned heap chain node value

abbrev pub owned : Pc → Option ℕ
owned (push_begun node value) = some node
owned (push_read node value old seen) = some node
owned (won node value) = some node
owned idle = none
owned pop_begun = none
owned (pop_read old seen) = none
owned (pop_ready old next seen) = none

pub record Inv (s : System) (chain values : List ℕ) : Type 0 where
  pub linked : Linked s.heap (get_ptr s.top) chain values
  pub distinct : IsDistinct chain
  pub stamped : get_stamp s.top ≡ s.changes % 2 ^ 17
  pub known : (i : ℕ) → Knows s.heap s.top s.changes chain (s.pc i)
  pub apart : (i j a : ℕ) → owned (s.pc i) ≡ some a → owned (s.pc j) ≡ some a → i ≡ j

-- A write outside the stack leaves the list in memory as it is.
pub Linked-write :
    (heap : ℕ → Node) (ptr : ℕ) (chain values : List ℕ) (a : ℕ) (n : Node)
    → elem a chain ≡ false
    → Linked heap ptr chain values
    → Linked (update heap a n) ptr chain values
Linked-write heap ptr [] [] a n out l = l
Linked-write heap ptr (b ∷ bs) (v ∷ vs) a n out l =
    ground (arith, l, Linked-write heap (heap b).next bs vs a n)
Linked-write heap ptr [] (v ∷ vs) a n out l = l
Linked-write heap ptr (b ∷ bs) [] a n out l = l

pub head_in :
    (heap : ℕ → Node) (ptr : ℕ) (chain values : List ℕ)
    → Linked heap ptr chain values
    → ptr ≢ 0
    → elem ptr chain ≡ true
head_in heap ptr [] [] l ne = absurd (ne l)
head_in heap ptr (b ∷ bs) (v ∷ vs) l ne = ground (arith, l)
head_in heap ptr [] (v ∷ vs) l ne = absurd l
head_in heap ptr (b ∷ bs) [] l ne = absurd l

-- A cell that is not live is in no list.
pub dead_outside :
    (heap : ℕ → Node) (ptr : ℕ) (chain values : List ℕ) (a : ℕ)
    → Linked heap ptr chain values
    → (heap a).live ≡ false
    → elem a chain ≡ false
dead_outside heap ptr [] [] a l dead = refl
dead_outside heap ptr (b ∷ bs) (v ∷ vs) a l dead =
    ground (arith, l, dead_outside heap (heap b).next bs vs a)
dead_outside heap ptr [] (v ∷ vs) a l dead = absurd l
dead_outside heap ptr (b ∷ bs) [] a l dead = absurd l
