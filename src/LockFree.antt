-- ===== src/LockFree.antt =====
-- myIOCP/CLockFreeStack.h: the stack of both pools, a shared access at a time. Any number of threads
-- run `Push` and `Pop` on one stack, interleaved in any order; an address is a number, 0 the null
-- pointer. A read of memory that was freed gives any value.
pub mod Invariant
pub mod Others
pub mod Pushing
pub mod Popping
pub mod Refine
pub mod Alone
use iocp_chatserver.Prelude.{
  ℕ, ◌+◌, ◌*◌, ◌/◌, ◌%◌, ◌^◌, ◌<◌, ◌≡◌, ◌≢◌, Bool, true, false, Option, none, some, if◌then◌else◌,
  ◌==◌,
}

-- `m_pTop`: a pointer in the low 47 bits and a stamp in the other 17. The shift drops what does not
-- fit, and the pointer has no bit above the low 47.
abbrev pub get_ptr : ℕ → ℕ
get_ptr word = word % 2 ^ 47

abbrev pub get_stamp : ℕ → ℕ
get_stamp word = word / 2 ^ 47

abbrev pub combine : ℕ → ℕ → ℕ
combine stamp ptr = stamp * 2 ^ 47 % 2 ^ 64 + ptr

-- A cell of memory, and the `Node` in it.
pub record Node : Type 0 where
  pub live : Bool
  pub value : ℕ
  pub next : ℕ

-- Where a thread stands, with the local variables that are live there. `seen` is no variable of the
-- source: it is the count of the changes of `m_pTop` when the thread read it. So is the value in
-- `won`: it is what the node held when the thread took it.
pub data Pc : Type 0 where
  idle : Pc
  push_begun : (node value : ℕ) → Pc  -- head of the loop of `Push`
  push_read : (node value old seen : ℕ) → Pc  -- before the compare-exchange of `Push`
  pop_begun : Pc  -- head of the loop of `Pop`
  pop_read : (old seen : ℕ) → Pc  -- before the read of `oldPtr->next`
  pop_ready : (old next seen : ℕ) → Pc  -- before the compare-exchange of `Pop`
  won : (node value : ℕ) → Pc  -- before `*out = temp->data`

-- `changes` counts the successful compare-exchanges; no step of a thread looks at it.
pub record System : Type 0 where
  pub top : ℕ
  pub heap : ℕ → Node
  pub pc : ℕ → Pc
  pub changes : ℕ

abbrev pub update {ℓ} : {A : Type ℓ} → (ℕ → A) → ℕ → A → ℕ → A
update f i a j = if i == j then a else f j

-- What a step does, seen from outside: nothing, the moment at which a call takes effect, or the
-- return of `Pop` with the value that it read from the node that held the first one.
pub data Effect : Type 0 where
  silent : Effect
  pushes : (value : ℕ) → Effect
  pops : (value : ℕ) → Effect
  finds_empty : Effect
  returns : (taken value : ℕ) → Effect

-- The new state: the stepping thread stands elsewhere, and memory or the top may have changed.
abbrev pub move : System → ℕ → Pc → System
move s i p = record s { pc = update s.pc i p }

abbrev pub write : System → ℕ → Node → System
write s a n = record s { heap = update s.heap a n }

abbrev pub swing : System → ℕ → System
swing s word = record s { top = word; changes = s.changes + 1 }

-- One step of thread `i`.
pub data Step (s : System) (i : ℕ) : Effect → System → Type 0 where
  begin_push :
      (node value junk : ℕ)
      → s.pc i ≡ idle
      → (s.heap node).live ≡ false
      → 0 < node
      → node < 2 ^ 47
      → Step s i silent (
          move
            (write s node (record { live = true; value = value; next = junk }))
            i
            (push_begun node value))
  read_top_push :
      (node value : ℕ)
      → s.pc i ≡ push_begun node value
      → Step s i silent (
          move
            (write s node (record (s.heap node) { next = get_ptr s.top }))
            i
            (push_read node value s.top s.changes))
  push_wins :
      (node value old seen : ℕ)
      → s.pc i ≡ push_read node value old seen
      → s.top ≡ old
      → Step s i (pushes value) (move (swing s (combine (get_stamp old + 1) node)) i idle)
  push_loses :
      (node value old seen : ℕ)
      → s.pc i ≡ push_read node value old seen
      → s.top ≢ old
      → Step s i silent (move s i (push_begun node value))
  begin_pop : s.pc i ≡ idle → Step s i silent (move s i pop_begun)
  read_top_pop :
      s.pc i ≡ pop_begun → get_ptr s.top ≢ 0 → Step s i silent (move s i (pop_read s.top s.changes))
  pop_empty : s.pc i ≡ pop_begun → get_ptr s.top ≡ 0 → Step s i finds_empty (move s i idle)
  read_next :
      (old seen next : ℕ)
      → s.pc i ≡ pop_read old seen
      → ((s.heap (get_ptr old)).live ≡ true → next ≡ (s.heap (get_ptr old)).next)
      → Step s i silent (move s i (pop_ready old next seen))
  pop_wins :
      (old next seen : ℕ)
      → s.pc i ≡ pop_ready old next seen
      → s.top ≡ old
      → Step s i (pops (s.heap (get_ptr old)).value) (
          move
            (swing s (combine (get_stamp old + 1) next))
            i
            (won (get_ptr old) (s.heap (get_ptr old)).value))
  pop_loses :
      (old next seen : ℕ)
      → s.pc i ≡ pop_ready old next seen
      → s.top ≢ old
      → Step s i silent (move s i pop_begun)
  finish_pop :
      (node taken : ℕ)
      → s.pc i ≡ won node taken
      → Step s i
          (returns taken (s.heap node).value)
          (move (write s node (record (s.heap node) { live = false })) i idle)

-- `m_pTop` is 0, and no thread has called yet.
abbrev pub IsInit : System → Type 0
IsInit s = (s.top ≡ 0) × (s.changes ≡ 0) × ((i : ℕ) → s.pc i ≡ idle)

-- Of a compare-exchange of `Pop` that wins: it comes fewer than 2^17 changes of the top after the
-- read of the value that it compares with.
abbrev pub IsFresh : (s : System) {i : ℕ} {e : Effect} {t : System} → Step s i e t → Type 0
IsFresh s (begin_push node value junk at dead pos small) = Unit
IsFresh s (read_top_push node value at) = Unit
IsFresh s (push_wins node value old seen at same) = Unit
IsFresh s (push_loses node value old seen at other) = Unit
IsFresh s (begin_pop at) = Unit
IsFresh s (read_top_pop at ne) = Unit
IsFresh s (pop_empty at null) = Unit
IsFresh s (read_next old seen next at read) = Unit
IsFresh s (pop_wins old next seen at same) = s.changes < seen + 2 ^ 17
IsFresh s (pop_loses old next seen at other) = Unit
IsFresh s (finish_pop node taken at) = Unit
