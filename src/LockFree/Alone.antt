-- ===== src/LockFree/Alone.antt =====
-- myIOCP/CLockFreeStack.h: a call of `Push` or `Pop` that goes on while the other threads stand still.
use iocp_chatserver.Prelude.{
  ℕ, zero, suc, ◌+◌, ◌≤◌, ◌<◌, ◌≡◌, ◌≢◌, refl, sym, subst, arith, if◌then◌else◌, ◌==◌, Bool-cases,
  inl, inr, ◌⊎◌,
}
use iocp_chatserver.LockFree.{
  Pc, idle, push_begun, push_read, pop_begun, pop_read, pop_ready, won, System, get_ptr, get_stamp,
  combine, update, Effect, Step, begin_push, read_top_push, push_wins, push_loses, begin_pop,
  read_top_pop, pop_empty, read_next, pop_wins, pop_loses, finish_pop,
}

-- Steps of thread `i` alone, in a call that is under way, with their number.
pub data Alone (i : ℕ) : System → ℕ → System → Type 0 where
  start : {s : System} → Alone i s 0 s
  follow :
      {e : Effect} {s t u : System} {n : ℕ}
      → s.pc i ≢ idle
      → Step s i e t
      → Alone i t n u
      → Alone i s (suc n) u

-- The steps that a call needs at most, with the top that its compare-exchange will find.
left : ℕ → Pc → ℕ
left top idle = 0
left top (push_begun node value) = 2
left top (push_read node value old seen) = if top == old then 1 else 3
left top pop_begun = 4
left top (pop_read old seen) = if top == old then 3 else 6
left top (pop_ready old next seen) = if top == old then 2 else 5
left top (won node taken) = 1

left_bound : (top : ℕ) (p : Pc) → left top p ≤ 6
unfolding left
left_bound top idle = omega arith
left_bound top (push_begun node value) = omega arith
left_bound top (push_read node value old seen) = ground arith
left_bound top pop_begun = omega arith
left_bound top (pop_read old seen) = ground arith
left_bound top (pop_ready old next seen) = ground arith
left_bound top (won node taken) = omega arith

update_self : (pc : ℕ → Pc) (i : ℕ) (p : Pc) → update pc i p i ≡ p
update_self pc i p = ground arith

lower :
    (s : System) (i top : ℕ) {p : Pc} (q : Pc)
    → s.pc i ≡ p
    → left top q < left s.top p
    → left top (update s.pc i q i) < left s.top (s.pc i)
lower s i top q at h =
    subst (λ x. left top x < left s.top (s.pc i)) (sym (update_self s.pc i q))
      (subst (λ y. left top q < left s.top y) (sym at) h)

Step-left :
    {s : System} {i : ℕ} {e : Effect} {t : System}
    → s.pc i ≢ idle
    → Step s i e t
    → left t.top (t.pc i) < left s.top (s.pc i)
unfolding left
Step-left {s} {i} busy (begin_push node value junk at dead pos small) = absurd (busy at)
Step-left {s} {i} busy (read_top_push node value at) =
    lower s i s.top (push_read node value s.top s.changes) at (ground arith)
Step-left {s} {i} busy (push_wins node value old seen at same) =
    lower s i (combine (get_stamp old + 1) node) idle at (ground (arith, same))
Step-left {s} {i} busy (push_loses node value old seen at other) =
    lower s i s.top (push_begun node value) at (ground (arith, other))
Step-left {s} {i} busy (begin_pop at) = absurd (busy at)
Step-left {s} {i} busy (read_top_pop at ne) =
    lower s i s.top (pop_read s.top s.changes) at (ground arith)
Step-left {s} {i} busy (pop_empty at null) = lower s i s.top idle at (omega arith)
Step-left {s} {i} busy (read_next old seen next at read) =
    lower s i s.top (pop_ready old next seen) at (ground arith)
Step-left {s} {i} busy (pop_wins old next seen at same) =
    lower s i (combine (get_stamp old + 1) next) (won (get_ptr old) (s.heap (get_ptr old)).value) at
      (ground (arith, same))
Step-left {s} {i} busy (pop_loses old next seen at other) =
    lower s i s.top pop_begun at (ground (arith, other))
Step-left {s} {i} busy (finish_pop node taken at) = lower s i s.top idle at (omega arith)

Alone-left :
    {i : ℕ} {s : System} {n : ℕ} {t : System}
    → Alone i s n t
    → n + left t.top (t.pc i) ≤ left s.top (s.pc i)
Alone-left start = omega arith
Alone-left (follow busy st r) = omega (arith, Step-left busy st, Alone-left r)

-- A call that is under way has a next step.
next-Step :
    (s : System) (i : ℕ) (p : Pc)
    → s.pc i ≡ p
    → p ≢ idle
    → (e : Effect) × (t : System) × Step s i e t
next-Step s i idle at busy = absurd (busy refl)
next-Step s i (push_begun node value) at busy = (_, _, read_top_push node value at)
next-Step s i (push_read node value old seen) at busy = elim (Bool-cases (s.top == old)) [
  | inl same ↦ (_, _, push_wins node value old seen at (ground (arith, same)))
  | inr other ↦ (_, _, push_loses node value old seen at (ground (arith, other)))
]
next-Step s i pop_begun at busy = elim (Bool-cases (get_ptr s.top == 0)) [
  | inl null ↦ (_, _, pop_empty at (ground (arith, null)))
  | inr some_node ↦ (_, _, read_top_pop at (ground (arith, some_node)))
]
next-Step s i (pop_read old seen) at busy =
    (_, _, read_next old seen (s.heap (get_ptr old)).next at (λ live. refl))
next-Step s i (pop_ready old next seen) at busy = elim (Bool-cases (s.top == old)) [
  | inl same ↦ (_, _, pop_wins old next seen at (ground (arith, same)))
  | inr other ↦ (_, _, pop_loses old next seen at (ground (arith, other)))
]
next-Step s i (won node taken) at busy = (_, _, finish_pop node taken at)

Idle-cases : (p : Pc) → (p ≡ idle) ⊎ (p ≢ idle)
Idle-cases idle = inl refl
Idle-cases (push_begun node value) = inr (λ e. ground arith)
Idle-cases (push_read node value old seen) = inr (λ e. ground arith)
Idle-cases pop_begun = inr (λ e. ground arith)
Idle-cases (pop_read old seen) = inr (λ e. ground arith)
Idle-cases (pop_ready old next seen) = inr (λ e. ground arith)
Idle-cases (won node taken) = inr (λ e. ground arith)

returns_within :
    (k : ℕ) (s : System) (i : ℕ)
    → left s.top (s.pc i) ≤ k
    → (n : ℕ) × (t : System) × Alone i s n t × (t.pc i ≡ idle)
returns_within zero s i h = elim (Idle-cases (s.pc i)) [
  | inl quiet ↦ (0, s, start, quiet)
  | inr busy ↦
      let (e, t, st) = next-Step s i (s.pc i) refl busy in absurd (omega (arith, Step-left busy st))
]
returns_within (suc k) s i h = elim (Idle-cases (s.pc i)) [
  | inl quiet ↦ (0, s, start, quiet)
  | inr busy ↦
      let (e, t, st) = next-Step s i (s.pc i) refl busy in
      let (n, u, r, quiet) = returns_within k t i (omega (arith, Step-left busy st)) in
      (suc n, u, follow busy st r, quiet)
]

-- In any state of the stack and of its threads, and at any point of a call of `Push` or `Pop`, while
-- the other threads stand still: the thread has steps that bring its call to its end, and it can take
-- no more than 6 steps in its call, whichever it takes.
pub Alone-returns :
    (s : System) (i : ℕ)
    → ((n : ℕ) × (t : System) × Alone i s n t × (t.pc i ≡ idle))
      × ((n : ℕ) (t : System) → Alone i s n t → n ≤ 6)
Alone-returns s i = (
  returns_within 6 s i (left_bound s.top (s.pc i)),
  λ n t r. omega (arith, Alone-left r, left_bound s.top (s.pc i)),
)
