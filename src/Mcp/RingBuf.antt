-- ===== src/Mcp/RingBuf.antt =====
-- internal/mcp/manager.go: ringBuf, which keeps the end of what a server writes to stderr. Each of its
-- methods runs under its mutex.
pub mod Tail
use cronfoundry.Prelude.{
  set, ℕ, zero, suc, ◌+◌, ◌-◌, ◌%◌, List, [], ◌∷◌, ◌++◌, ltb, leb, ◌==◌, if◌then◌else◌, take, drop,
}

-- the length of `buf`
abbrev pub size : ℕ
size = 1024

-- The names are those of the fields: `pos` is where the next byte goes, and `len` the number of bytes
-- that are kept.
pub record RingBuf : Type 0 where
  pub buf : List ℕ
  pub pos : ℕ
  pub len : ℕ

abbrev pub zeros : ℕ → List ℕ
zeros zero = []
zeros (suc n) = 0 ∷ zeros n

-- &ringBuf{buf: make([]byte, 1024)}
unfoldable pub fresh : RingBuf
fresh = record { buf = zeros size; pos = 0; len = 0 }

-- the body of the loop of write; a write out of bounds, which would panic, changes nothing here
unfoldable pub write_byte : ℕ → RingBuf → RingBuf
write_byte b r = record {
  buf = set r.buf r.pos b;
  pos = (r.pos + 1) % size;
  len = if ltb r.len size then r.len + 1 else r.len;
}

unfoldable pub write : List ℕ → RingBuf → RingBuf
unfolding write_byte
write [] r = r
write (b ∷ bs) r = write bs (write_byte b r)

-- the goroutine of Start: one write for each chunk that it reads
unfoldable pub drain : List (List ℕ) → RingBuf → RingBuf
unfolding write
drain [] r = r
drain (c ∷ cs) r = drain cs (write c r)

-- snapshot
unfoldable pub snapshot : RingBuf → List ℕ
snapshot r =
    let start = (r.pos + size - r.len) % size in
    if r.len == 0
    then []
    else if leb (start + r.len) size
    then take r.len (drop start r.buf)
    else drop start r.buf ++ take (r.len - (size - start)) r.buf
