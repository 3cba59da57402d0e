-- ===== src/SessionId/Laws.antt =====
-- myIOCP/CLanServer.cpp: what a session id says of its slot.
use iocp_chatserver.Prelude.{ℕ, ◌<◌, ◌^◌, ◌≡◌, arith}
use iocp_chatserver.SessionId.{make, index_of, generation_of}

-- An id gives back its slot and its generation, and fits in 64 bits, while the slot has 16 bits and
-- the slot was used fewer than 2^31 times.
pub make_fields :
    (idx generation : ℕ)
    → idx < 2 ^ 16
    → generation < 2 ^ 31
    → (index_of (make idx generation) ≡ idx)
      × (generation_of (make idx generation) ≡ generation)
      × (make idx generation < 2 ^ 64)
unfolding make index_of generation_of
make_fields idx generation h g = ground arith
