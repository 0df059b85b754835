-- ===== src/Base/DataStream/Orders.antt =====
-- The numbers that a `Data_Stream` reads in each byte order.
use helpz.Prelude.{
  ℕ, zero, suc, ◌+◌, ◌*◌, ◌/◌, ◌%◌, ◌≤◌, ◌<◌, ◌≡◌, refl, sym, ap, ◌∙◌, false, ◌&&◌, [], ◌∷◌, none,
  some, arith, Bool-cases, inl, inr, leb, if◌then◌else◌, length, take, drop, All, length-take,
  length-drop, Bytes,
}
use helpz.Base.DataStream.{
  ByteOrder, big_endian, little_endian, same_order, system_order, DataStream, has, swap_loop,
  from_low, from_high, in_memory, read,
}

abbrev pub IsBytes : Bytes → Type 0
IsBytes bytes = All (λ b. b < 256) bytes

-- Turned round, what is read from the lowest byte is what is read from the highest.
swap_loop-from_low :
    (bytes : Bytes) (tmp : ℕ)
    → IsBytes bytes
    → swap_loop (length bytes) tmp (from_low bytes) ≡ from_high tmp bytes
unfolding swap_loop from_low from_high
swap_loop-from_low [] tmp h = refl
swap_loop-from_low (b ∷ bytes) tmp (small, h) =
    let low : (b + 256 * from_low bytes) % 256 ≡ b = omega arith in
    let rest : (b + 256 * from_low bytes) / 256 ≡ from_low bytes = omega arith in
    ap (λ n. swap_loop (length bytes) (tmp * 256 + n) ((b + 256 * from_low bytes) / 256)) low
    ∙ (ap (swap_loop (length bytes) (tmp * 256 + b)) rest
        ∙ swap_loop-from_low bytes (tmp * 256 + b) h)

IsBytes-drop : (n : ℕ) (bytes : Bytes) → IsBytes bytes → IsBytes (drop n bytes)
IsBytes-drop zero bytes h = h
IsBytes-drop (suc n) [] h = tt
IsBytes-drop (suc n) (b ∷ bytes) h = IsBytes-drop n bytes h.1

IsBytes-take : (n : ℕ) (bytes : Bytes) → IsBytes bytes → IsBytes (take n bytes)
IsBytes-take zero bytes h = tt
IsBytes-take (suc n) [] h = tt
IsBytes-take (suc n) (b ∷ bytes) h = (h.0, IsBytes-take n bytes h.1)

-- What the bytes mean in an order.
abbrev pub value : ByteOrder → Bytes → ℕ
value big_endian bytes = from_high 0 bytes
value little_endian bytes = from_low bytes

in_memory_lem :
    (order : ByteOrder) (bytes : Bytes)
    → IsBytes bytes
    → (if same_order order system_order
        then in_memory little_endian bytes
        else swap_loop (length bytes) 0 (in_memory little_endian bytes))
      ≡ value order bytes
unfolding in_memory from_low from_high
in_memory_lem big_endian bytes h = swap_loop-from_low bytes 0 h
in_memory_lem little_endian bytes h = refl

-- On a machine with the lowest byte first a read of `size` bytes gives their value in the stream's
-- byte order and goes on behind them, if there are so many and no read has failed yet. Otherwise it
-- gives nothing, the position stays, and the failure is noted, so that later reads fail.
pub read_lem :
    (size : ℕ) (s : DataStream)
    → IsBytes s.bytes
    → read little_endian size s ≡ (
        if leb (s.idx + size) (length s.bytes) && s.is_ok
        then (
          some (value s.byte_order (take size (drop s.idx s.bytes))),
          record s { idx = s.idx + size },
        )
        else (none, record s { is_ok = false }))
unfolding read has
read_lem size s h = elim (Bool-cases (leb (s.idx + size) (length s.bytes) && s.is_ok)) [
  | inl e ↦ rw e (ap (λ v. (some v, record s { idx = s.idx + size })) (number (ground (arith, e))))
  | inr e ↦ rw e refl
]
  where
    bytes : Bytes
    bytes = take size (drop s.idx s.bytes)

    number :
        s.idx + size ≤ length s.bytes
        → (if same_order s.byte_order system_order
            then in_memory little_endian bytes
            else swap_loop size 0 (in_memory little_endian bytes))
          ≡ value s.byte_order bytes
    number within =
        let all : length bytes ≡ size =
          omega (arith, length-take size (drop s.idx s.bytes), length-drop s.idx s.bytes) in
        ap
          (λ n.
            if same_order s.byte_order system_order
            then in_memory little_endian bytes
            else swap_loop n 0 (in_memory little_endian bytes))
          (sym all)
        ∙ in_memory_lem s.byte_order bytes
            (IsBytes-take size (drop s.idx s.bytes) (IsBytes-drop s.idx s.bytes h))
