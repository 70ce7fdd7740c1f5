-- ===== src/Mcp/RingBuf/Tail.antt =====
-- internal/mcp/manager.go: the ring buffer against the list of all that was written.
use mathlib.Core.Path.{subst}
use cronfoundry.Prelude.{
  set, get_elem?, get-set, length-set, length-append, get-append, get-past, get-drop, get-take,
  length-drop, list_ext, ℕ, zero, suc, ◌+◌, ◌-◌, ◌%◌, ◌≤◌, ◌<◌, ◌≡◌, ◌≢◌, refl, sym, ◌∙◌, true,
  false, none, List, [], ◌∷◌, ◌++◌, append-nil, append_assoc, arith, Bool-cases, inl, inr, ltb, leb,
  ◌==◌, length, take, drop,
}
use cronfoundry.Mcp.RingBuf.{size, RingBuf, zeros, fresh, write_byte, write, drain, snapshot}

-- the buffer after `all` has been written
record Holds (r : RingBuf) (all : List ℕ) : Type 0 where
  kept : length r.buf ≡ size
  at : r.pos ≡ length all % size
  full : r.len ≡ length all - (length all - size)
  bytes :
      (i : ℕ)
      → i < length all
      → length all ≤ i + size
      → get_elem? r.buf (i % size) ≡ get_elem? all i

length-zeros : (n : ℕ) → length (zeros n) ≡ n
length-zeros zero = refl
length-zeros (suc n) = omega (arith, length-zeros n)

fresh-Holds : Holds fresh []
unfolding fresh
fresh-Holds = record {
  kept = length-zeros size;
  at = refl;
  full = refl;
  bytes = λ i h k. absurd (omega arith);
}

place_differs : (p n i : ℕ) → p ≡ n % size → i < n → n + 1 ≤ i + size → (p == i % size) ≡ false
place_differs p n i e h k = let other : p ≢ i % size = λ same. omega arith in ground arith

snoc-bytes :
    (r : RingBuf) (all : List ℕ) (b i : ℕ)
    → Holds r all
    → i < length (all ++ b ∷ [])
    → length (all ++ b ∷ []) ≤ i + size
    → get_elem? (set r.buf r.pos b) (i % size) ≡ get_elem? (all ++ b ∷ []) i
snoc-bytes r all b i h lt le =
    let n = length-append all (b ∷ []) in
    let put = get-set r.buf r.pos (i % size) b (omega (arith, h.kept, h.at)) in
    let app = get-append all (b ∷ []) i in
    elim (Bool-cases (ltb i (length all))) [
      | inl e ↦
          let older : (r.pos == i % size) ≡ false =
            place_differs r.pos (length all) i h.at (ground arith) (omega (arith, n)) in
          rw (put, app, e, older) (h.bytes i (ground arith) (omega (arith, n)))
      | inr e ↦
          let last : i ≡ length all = ground (arith, n) in
          let here : (r.pos == i % size) ≡ true = ground (arith, h.at) in
          let start : i - length all ≡ 0 = omega arith in rw (put, app, e, here, start) refl
    ]

write_byte-Holds :
    (r : RingBuf) (all : List ℕ) (b : ℕ) → Holds r all → Holds (write_byte b r) (all ++ b ∷ [])
unfolding write_byte
write_byte-Holds r all b h =
    let n = length-append all (b ∷ []) in
    record {
      kept = length-set r.buf r.pos b ∙ h.kept;
      at = omega (arith, n, h.at);
      full = ground (arith, n, h.full);
      bytes = λ i lt le. snoc-bytes r all b i h lt le;
    }

write-Holds :
    (bs : List ℕ) (r : RingBuf) (all : List ℕ) → Holds r all → Holds (write bs r) (all ++ bs)
unfolding write
write-Holds [] r all h = rw (append-nil all) h
write-Holds (b ∷ bs) r all h =
    subst (Holds (write bs (write_byte b r))) (append_assoc all (b ∷ []) bs)
      (write-Holds bs (write_byte b r) (all ++ b ∷ []) (write_byte-Holds r all b h))

-- the chunks together
abbrev pub concat : List (List ℕ) → List ℕ
concat [] = []
concat (c ∷ cs) = c ++ concat cs

drain-Holds :
    (cs : List (List ℕ)) (r : RingBuf) (all : List ℕ)
    → Holds r all
    → Holds (drain cs r) (all ++ concat cs)
unfolding drain
drain-Holds [] r all h = rw (append-nil all) h
drain-Holds (c ∷ cs) r all h =
    subst (Holds (drain cs (write c r))) (append_assoc all c (concat cs))
      (drain-Holds cs (write c r) (all ++ c) (write-Holds c r all h))

-- where the tail begins in the buffer, and where it goes on at its front
start_place :
    (p l n i : ℕ)
    → p ≡ n % size
    → l ≡ n - (n - size)
    → (p + size - l) % size + l ≤ size
    → i < l
    → (p + size - l) % size + i ≡ (n - size + i) % size
start_place p l n i e f fits lt = omega arith

first_place :
    (p l n i : ℕ)
    → p ≡ n % size
    → l ≡ n - (n - size)
    → i < l
    → i < size - (p + size - l) % size
    → (p + size - l) % size + i ≡ (n - size + i) % size
first_place p l n i e f lt k = omega arith

front_place :
    (p l n i : ℕ)
    → p ≡ n % size
    → l ≡ n - (n - size)
    → i < l
    → size - (p + size - l) % size ≤ i
    → i - (size - (p + size - l) % size) ≡ (n - size + i) % size
front_place p l n i e f lt k = omega arith

module _ (r : RingBuf) (all : List ℕ) (h : Holds r all) where
  abbrev oldest : ℕ
  oldest = (r.pos + size - r.len) % size

  -- the element at a place of the tail, where it stands in the buffer
  tail-in-buf :
      (i j : ℕ)
      → i < r.len
      → j ≡ (length all - size + i) % size
      → get_elem? r.buf j ≡ get_elem? (drop (length all - size) all) i
  tail-in-buf i j lt e =
      rw (e, get-drop (length all - size) i all)
        (h.bytes (length all - size + i) (omega (arith, h.full)) (omega arith))

  tail-past : (i : ℕ) → r.len ≤ i → none ≡ get_elem? (drop (length all - size) all) i
  tail-past i le =
      rw (get-drop (length all - size) i all)
        (sym (get-past all (length all - size + i) (omega (arith, h.full))))

  in-one-piece :
      leb (oldest + r.len) size ≡ true
      → (i : ℕ)
      → get_elem? (take r.len (drop oldest r.buf)) i ≡ get_elem? (drop (length all - size) all) i
  in-one-piece fits i = elim (Bool-cases (ltb i r.len)) [
    | inl e ↦
        rw (get-take r.len i (drop oldest r.buf), e, get-drop oldest i r.buf)
          (tail-in-buf i (oldest + i) (ground arith)
            (start_place r.pos r.len (length all) i h.at h.full (ground arith) (ground arith)))
    | inr e ↦ rw (get-take r.len i (drop oldest r.buf), e) (tail-past i (ground arith))
  ]

  in-two-pieces :
      leb (oldest + r.len) size ≡ false
      → (i : ℕ)
      → get_elem? (drop oldest r.buf ++ take (r.len - (size - oldest)) r.buf) i
        ≡ get_elem? (drop (length all - size) all) i
  in-two-pieces over i =
      let front : length (drop oldest r.buf) ≡ size - oldest =
        omega (arith, length-drop oldest r.buf, h.kept) in
      let split = get-append (drop oldest r.buf) (take (r.len - (size - oldest)) r.buf) i in
      elim (Bool-cases (ltb i (size - oldest))) [
        | inl e ↦
            rw (split, front, e, get-drop oldest i r.buf)
              (tail-in-buf i (oldest + i) (ground arith)
                (first_place r.pos r.len (length all) i h.at h.full (ground arith) (ground arith)))
        | inr e ↦ elim (Bool-cases (ltb (i - (size - oldest)) (r.len - (size - oldest)))) [
          | inl f ↦
              rw
                (split, front, e, get-take (r.len - (size - oldest)) (i - (size - oldest)) r.buf, f)
                (tail-in-buf i (i - (size - oldest)) (ground arith) (
                  front_place r.pos r.len (length all) i h.at h.full (ground arith) (ground arith)))
          | inr f ↦
              rw
                (split, front, e, get-take (r.len - (size - oldest)) (i - (size - oldest)) r.buf, f)
                (tail-past i (ground arith))
        ]
      ]

  empty-tail : (r.len == 0) ≡ true → (i : ℕ) → none ≡ get_elem? (drop (length all - size) all) i
  empty-tail e i = tail-past i (ground arith)

  snapshot-tail : snapshot r ≡ drop (length all - size) all
  unfolding snapshot
  snapshot-tail = elim (Bool-cases (r.len == 0)) [
    | inl e ↦ rw e (list_ext [] (drop (length all - size) all) (empty-tail e))
    | inr e ↦ elim (Bool-cases (leb (oldest + r.len) size)) [
      | inl fits ↦
          rw (e, fits)
            (list_ext (take r.len (drop oldest r.buf)) (drop (length all - size) all)
              (in-one-piece fits))
      | inr over ↦
          rw (e, over)
            (list_ext (drop oldest r.buf ++ take (r.len - (size - oldest)) r.buf)
              (drop (length all - size) all) (in-two-pieces over))
    ]
  ]

-- Whatever chunks a server writes to its stderr, of whatever sizes: the snapshot of the ring buffer
-- is the end of all of them together, of at most 1024 bytes, in order.
pub snapshot-drain :
    (cs : List (List ℕ)) → snapshot (drain cs fresh) ≡ drop (length (concat cs) - size) (concat cs)
snapshot-drain cs = snapshot-tail (drain cs fresh) (concat cs) (drain-Holds cs fresh [] fresh-Holds)
