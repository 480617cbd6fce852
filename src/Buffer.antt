-- ===== src/Buffer.antt =====
-- Output buffers. A function of the runtime takes a slice `out` and a cursor `idx`, writes at the
-- cursor and moves it on. `Out` is what such a call has produced: the capacity `out.len()` and the
-- bytes `out[..idx]`. The bytes of `out` behind the cursor are never read through it.
-- The appending loops are those of runtime/src/main.rs, runtime/src/oauth.rs and
-- runtime/src/agent/mod.rs.
pub mod Laws
use mini_agent_os.Base.{
  ℕ, ◌+◌, ◌-◌, Bool, true, false, List, [], ◌∷◌, ◌++◌, ltb, leb, if◌then◌else◌, length, take, Bytes,
}

pub record Out : Type 0 where
  pub capacity : ℕ
  pub bytes : Bytes

-- The cursor.
abbrev pub index : Out → ℕ
index o = length o.bytes

-- `&mut [u8; n]` with the cursor at 0.
abbrev pub fresh : ℕ → Out
fresh n = record { capacity = n; bytes = [] }

-- `idx < out.len()`
abbrev pub has_room : Out → Bool
has_room o = ltb (index o) o.capacity

-- `idx + n <= out.len()`
abbrev pub fits : Out → ℕ → Bool
fits o n = leb (index o + n) o.capacity

-- Stores at the cursor that the source makes behind a test of the room.
abbrev pub put : Out → Bytes → Out
put o bs = record o { bytes = o.bytes ++ bs }

-- `append_byte`: a full buffer stays as it is.
unfoldable pub append_byte : Out → ℕ → Out
append_byte o b = if has_room o then put o (b ∷ []) else o

-- `append_bytes`: copies while there is room.
unfoldable pub append_bytes : Out → Bytes → Out
append_bytes o [] = o
append_bytes o (b ∷ src) = if has_room o then append_bytes (put o (b ∷ [])) src else o

-- `copy_bytes`: the prefix of `src` that fits a destination of `n` bytes.
unfoldable pub copy_bytes : ℕ → Bytes → Bytes
copy_bytes n src = take (if ltb n (length src) then n else length src) src

-- `i = copy_bytes(&mut out[i..], src) + i`
unfoldable pub append_copy : Out → Bytes → Out
append_copy o src = put o (copy_bytes (o.capacity - index o) src)
