-- ===== src/SessionId.antt =====
-- myIOCP/CLanServer.h and CLanServer.cpp: how a `SessionID` names a slot and one use of it.
-- The generation is a `LONG`, kept as its 32-bit pattern.
pub mod Laws
use iocp_chatserver.Prelude.{ℕ, ◌+◌, ◌-◌, ◌*◌, ◌/◌, ◌%◌, ◌^◌, if◌then◌else◌, ltb}

-- `((SessionID)idx << 48) | (SessionID)s->generation`. The cast sign-extends: the bits of a
-- negative generation from 32 up are all ones, and cover those of the index.
unfoldable pub make : ℕ → ℕ → ℕ
make idx generation =
    if ltb generation (2 ^ 31)
    then idx * 2 ^ 48 % 2 ^ 64 + generation
    else 2 ^ 64 - 2 ^ 32 + generation

-- `(int)(sid >> 48)`
unfoldable pub index_of : ℕ → ℕ
index_of sid = sid / 2 ^ 48

-- `(LONG)(sid & Bit_Masking)`
unfoldable pub generation_of : ℕ → ℕ
generation_of sid = sid % 2 ^ 48 % 2 ^ 32
