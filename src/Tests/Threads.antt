-- ===== src/Tests/Threads.antt =====
-- The lock-free stack: threads 1 and 2 push 5 and 6, and thread 1 pops.
use iocp_chatserver.Prelude.{false, ℕ, ◌+◌, ◌^◌, ◌≤◌, ◌≡◌, refl, List, [], ◌∷◌, some, arith}
use iocp_chatserver.LockFree.{
  System, idle, silent, pushes, pops, returns, begin_push, read_top_push, push_wins, begin_pop,
  read_top_pop, read_next, pop_wins, finish_pop, get_ptr,
}
use iocp_chatserver.LockFree.Invariant.{Linked}
use iocp_chatserver.LockFree.Alone.{Alone, Alone-returns}
use iocp_chatserver.LockFree.Refine.{Run, done, first, replay, Run_refines}

abbrev start : System
start = record {
  top = 0;
  heap = λ a. record { live = false; value = 0; next = 0 };
  pc = λ i. idle;
  changes = 0;
}

-- Thread 1 has read the top when thread 2 pushes.
abbrev contended : (u : System) × Run u start (silent ∷ silent ∷ silent ∷ silent ∷ pushes 6 ∷ [])
contended = (
  _,
  first {i = 1} (begin_push 8 5 0 refl refl (omega arith) (omega arith)) (
      first {i = 1} (read_top_push 8 5 refl) (
        first {i = 2} (begin_push 16 6 0 refl refl (omega arith) (omega arith)) (
          first {i = 2} (read_top_push 16 6 refl)
            (first {i = 2} (push_wins 16 6 0 0 refl refl) done)))),
)

-- Thread 1 has lost against thread 2.
Alone-returns_example :
    ((n : ℕ) × (t : System) × Alone 1 (contended.0) n t × (t.pc 1 ≡ idle))
    × ((n : ℕ) (t : System) → Alone 1 (contended.0) n t → n ≤ 6)
Alone-returns_example = Alone-returns (contended.0) 1

-- Thread 1 pushes, and thread 2 pops.
abbrev handed :
    (u : System) × Run u start
      (silent ∷ silent ∷ pushes 5 ∷ silent ∷ silent ∷ silent ∷ pops 5 ∷ returns 5 5 ∷ [])
handed = (
  _,
  first {i = 1} (begin_push 8 5 0 refl refl (omega arith) (omega arith)) (
      first {i = 1} (read_top_push 8 5 refl) (
        first {i = 1} (push_wins 8 5 0 0 refl refl) (
          first {i = 2} (begin_pop refl) (
            first {i = 2} (read_top_pop refl (omega arith)) (
              first {i = 2} (read_next (2 ^ 47 + 8) 1 0 refl (λ live. refl)) (
                first {i = 2} (pop_wins (2 ^ 47 + 8) 0 1 refl refl)
                  (first {i = 2} (finish_pop 8 5 refl) done))))))),
)

Run_refines_example :
    (values : List ℕ) × (chain : List ℕ) × (replay []
        (silent ∷ silent ∷ pushes 5 ∷ silent ∷ silent ∷ silent ∷ pops 5 ∷ returns 5 5 ∷ [])
      ≡ some values)
    × Linked (handed.0).heap (get_ptr (handed.0).top) chain values
Run_refines_example =
    Run_refines handed.1 (refl, refl, λ i. refl)
      (tt, (tt, (tt, (tt, (tt, (tt, (omega arith, (tt, tt))))))))
