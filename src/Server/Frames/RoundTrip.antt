-- ===== src/Server/Frames/RoundTrip.antt =====
-- cmd/server/ws.go: wsReadFrame reads what wsWriteFrame has written.
use Prim.Native.Nat.{bit_and, bit_or}
use lp.Base.{
  ℕ, zero, suc, ◌-◌, ◌/◌, ◌%◌, ◌≤◌, ◌<◌, ltb, ◌==◌, Bool, true, List, [], ◌∷◌, ◌++◌, some, ◌≡◌,
  refl, ◌∙◌, ap, length, drop, arith, if◌then◌else◌, ◌&&◌, ◌⊎◌, inl, inr,
}
use mathlib.Core.List.{append_assoc}
use lp.Server.Frames.{
  done, Reader, filled, big_endian, read_payload, read_length, read_mask, read_body, read_frame,
  put_uint64, frame_header, frame_bytes,
}

-- A test at every byte below `top`
unfoldable pub holds_at_bytes : (ℕ → Bool) → ℕ → Bool
holds_at_bytes test zero = true
holds_at_bytes test (suc top) = test top && holds_at_bytes test top

pub holds_at_byte :
    (test : ℕ → Bool) (top b : ℕ) → b < top → holds_at_bytes test top ≡ true → test b ≡ true
unfolding holds_at_bytes
holds_at_byte test zero b below whole = absurd (omega arith)
holds_at_byte test (suc top) b below whole = ground (arith, holds_at_byte test top b)

opcode_table : holds_at_bytes (λ b. bit_and (bit_or 0x80 b) 0x0f == b) 16 ≡ true
unfolding holds_at_bytes
opcode_table = refl

short_table : holds_at_bytes (λ b. bit_and b 0x80 == 0 && bit_and b 0x7f == b) 128 ≡ true
unfolding holds_at_bytes
short_table = refl

pub opcode_bits : (b : ℕ) → b < 16 → bit_and (bit_or 0x80 b) 0x0f ≡ b
opcode_bits b h = ground (arith, holds_at_byte _ 16 b h opcode_table)

short_bits : (b : ℕ) → b < 128 → (bit_and b 0x80 ≡ 0) × (bit_and b 0x7f ≡ b)
short_bits b h = ground (arith, holds_at_byte _ 128 b h short_table)

-- The second byte of the header, and the length after it
unfoldable pub length_byte : ℕ → ℕ
length_byte n = if ltb n 126 then n else if ltb n 65536 then 126 else 127

unfoldable pub length_tail : ℕ → List ℕ
unfolding put_uint64
length_tail n =
    if ltb n 126 then [] else if ltb n 65536 then (n / 256 % 256) ∷ (n % 256) ∷ [] else put_uint64 n

frame_header_lem :
    (opcode n : ℕ) → frame_header opcode n ≡ bit_or 0x80 opcode ∷ length_byte n ∷ length_tail n
unfolding frame_header length_byte length_tail
frame_header_lem opcode n = ground arith

length_cases : (n : ℕ) → (n < 126) ⊎ (((126 ≤ n) × (n < 65536)) ⊎ (65536 ≤ n))
length_cases n = omega arith

length_short : (n : ℕ) → n < 126 → (length_byte n ≡ n) × (length_tail n ≡ [])
unfolding length_byte length_tail
length_short n h = ground arith

length_two :
    (n : ℕ)
    → 126 ≤ n
    → n < 65536
    → (length_byte n ≡ 126) × (length_tail n ≡ (n / 256 % 256) ∷ (n % 256) ∷ [])
unfolding length_byte length_tail
length_two n low high = ground arith

length_eight : (n : ℕ) → 65536 ≤ n → (length_byte n ≡ 127) × (length_tail n ≡ put_uint64 n)
unfolding length_byte length_tail
length_eight n low = ground arith

pub length_byte_small : (n : ℕ) → length_byte n < 128
unfolding length_byte
length_byte_small n = ground arith

big_endian_two : (n : ℕ) → n < 65536 → big_endian 0 ((n / 256 % 256) ∷ (n % 256) ∷ []) ≡ n
unfolding big_endian
big_endian_two n h = omega arith

big_endian_eight : (n : ℕ) → n ≤ 0x100000 → big_endian 0 (put_uint64 n) ≡ n
unfolding big_endian put_uint64
big_endian_eight n h = omega arith

-- A reader whose next bytes are `pending`: ReadByte takes the first, Read takes at least one of them,
-- and at most as many as it is asked for.
pub record IsStream {S : Type 0} (r : Reader S) (pending : S → List ℕ) : Type 0 where
  pub next_byte :
      (s : S) (b : ℕ) (rest : List ℕ)
      → pending s ≡ b ∷ rest
      → (t : S) × (r.read_byte s ≡ some (b, t)) × (pending t ≡ rest)
  pub next_bytes :
      (s : S) (n : ℕ) (b : ℕ) (rest : List ℕ)
      → pending s ≡ b ∷ rest
      → (bytes : List ℕ) × (t : S) × (r.read (suc n) s ≡ some (bytes, t))
        × (0 < length bytes)
        × (length bytes ≤ suc n)
        × (bytes ++ pending t ≡ pending s)

split_front :
    (xs ys bs cs : List ℕ)
    → xs ++ ys ≡ bs ++ cs
    → length xs ≤ length bs
    → (bs ≡ xs ++ drop (length xs) bs) × (ys ≡ drop (length xs) bs ++ cs)
split_front [] ys bs cs e h = (refl, e)
split_front (x ∷ xs) ys [] cs e h = absurd (omega arith)
split_front (x ∷ xs) ys (b ∷ bs) cs e h = ground (arith, split_front xs ys bs cs)

length-drop : (n : ℕ) (xs : List ℕ) → length (drop n xs) ≡ length xs - n
length-drop zero xs = omega arith
length-drop (suc n) [] = omega arith
length-drop (suc n) (x ∷ xs) = omega (arith, length-drop n xs)

module _ {S : Type 0} (r : Reader S) (pending : S → List ℕ) (stream : IsStream r pending) where
  pub read_payload_lem :
      (fuel n : ℕ) (s : S) (payload rest : List ℕ)
      → pending s ≡ payload ++ rest
      → length payload ≡ n
      → n ≤ fuel
      → (t : S) × (read_payload r fuel n s ≡ done payload t) × (pending t ≡ rest)
  unfolding read_payload
  read_payload_lem fuel zero s [] rest e l h = (s, refl, e)
  read_payload_lem fuel zero s (b ∷ bs) rest e l h = absurd (omega arith)
  read_payload_lem zero (suc n) s payload rest e l h = absurd (omega arith)
  read_payload_lem (suc fuel) (suc n) s [] rest e l h = absurd (omega arith)
  read_payload_lem (suc fuel) (suc n) s (b ∷ bs) rest e l h =
      let (bytes, t, got, some_bytes, at_most, whole) = stream.next_bytes s n b (bs ++ rest) e in
      let (front, back) = split_front bytes (pending t) (b ∷ bs) rest (whole ∙ e) (omega arith) in
      let (u, read, left) =
        read_payload_lem fuel (suc n - length bytes) t (drop (length bytes) (b ∷ bs)) rest back
          (length-drop (length bytes) (b ∷ bs) ∙ omega arith) (omega arith) in
      (u, ground (arith, got, read, front), left)

-- A reader that returns all the bytes it is asked for, when it is asked for between one and eight
-- and they are pending.
pub record HasWholeHeaders {S : Type 0} (r : Reader S) (pending : S → List ℕ) : Type 0 where
  pub whole :
      (s : S) (bytes rest : List ℕ)
      → 0 < length bytes
      → length bytes ≤ 8
      → pending s ≡ bytes ++ rest
      → (t : S) × (r.read (length bytes) s ≡ some (bytes, t)) × (pending t ≡ rest)

module _ {S : Type 0} (r : Reader S) (pending : S → List ℕ) (stream : IsStream r pending)
    (headers : HasWholeHeaders r pending) where
  read_length_short : (n : ℕ) (s : S) → n < 126 → read_length r n s ≡ done n s
  unfolding read_length
  read_length_short n s h = ground arith

  read_length_two :
      (s t : S) (x y : ℕ)
      → r.read 2 s ≡ some (x ∷ y ∷ [], t)
      → read_length r 126 s ≡ done (big_endian 0 (x ∷ y ∷ [])) t
  unfolding read_length filled
  read_length_two s t x y e = rw e refl

  read_length_eight :
      (s t : S) (n : ℕ)
      → r.read 8 s ≡ some (put_uint64 n, t)
      → read_length r 127 s ≡ done (big_endian 0 (put_uint64 n)) t
  unfolding read_length filled put_uint64
  read_length_eight s t n e = rw e refl

  pub read_length_lem :
      (n : ℕ) (s : S) (rest : List ℕ)
      → n ≤ 0x100000
      → pending s ≡ length_tail n ++ rest
      → (t : S) × (read_length r (length_byte n) s ≡ done n t) × (pending t ≡ rest)
  unfolding put_uint64
  read_length_lem n s rest h e = elim (length_cases n) [
    | inl small ↦
        let (byte, tail) = length_short n small in
        (
          s,
          ap (λ b. read_length r b s) byte ∙ read_length_short n s small,
          e ∙ ap (λ l. l ++ rest) tail,
        )
    | inr (inl (low, high)) ↦
        let (byte, tail) = length_two n low high in
        let (t, got, left) =
          headers.whole s _ rest (omega arith) (omega arith) (e ∙ ap (λ l. l ++ rest) tail) in
        (
          t,
          ap (λ b. read_length r b s) byte
              ∙ read_length_two s t _ _ got
              ∙ ap (λ m. done m t) (big_endian_two n high),
          left,
        )
    | inr (inr low) ↦
        let (byte, tail) = length_eight n low in
        let (t, got, left) =
          headers.whole s (put_uint64 n) rest (omega arith) (omega arith)
            (e ∙ ap (λ l. l ++ rest) tail) in
        (
          t,
          ap (λ b. read_length r b s) byte
              ∙ read_length_eight s t n got
              ∙ ap (λ m. done m t) (big_endian_eight n h),
          left,
        )
  ]

  read_frame_parts :
      (s s1 s2 s3 t : S) (b0 b1 n : ℕ) (payload : List ℕ)
      → r.read_byte s ≡ some (b0, s1)
      → r.read_byte s1 ≡ some (b1, s2)
      → (bit_and b1 0x80 ≡ 0) × (bit_and b1 0x7f ≡ b1)
      → read_length r b1 s2 ≡ done n s3
      → n ≤ 0x100000
      → read_payload r n n s3 ≡ done payload t
      → read_frame r s ≡ done (bit_and b0 0x0f, payload) t
  unfolding read_frame read_body read_mask
  read_frame_parts s s1 s2 s3 t b0 b1 n payload e0 e1 (high, low) el h ep =
      ground (arith, e0, e1, high, low, el, ep)

  -- On a reader that delivers the bytes of wsWriteFrame, in reads of any size but whole in the header,
  -- wsReadFrame returns the opcode and the payload that were written and leaves the bytes after them,
  -- when the opcode is below 16 and the payload has at most 1 << 20 bytes.
  pub read-write :
      (opcode : ℕ) (payload rest : List ℕ) (s : S)
      → opcode < 16
      → length payload ≤ 0x100000
      → pending s ≡ frame_bytes opcode payload ++ rest
      → (t : S) × (read_frame r s ≡ done (opcode, payload) t) × (pending t ≡ rest)
  unfolding frame_bytes
  read-write opcode payload rest s small fits e =
      let n : ℕ = length payload in
      let start =
        e
        ∙ ap (λ header. (header ++ payload) ++ rest) (frame_header_lem opcode n)
        ∙ ap (λ l. bit_or 0x80 opcode ∷ length_byte n ∷ l)
            (append_assoc (length_tail n) payload rest) in
      let (s1, e0, p1) = stream.next_byte s _ _ start in
      let (s2, e1, p2) = stream.next_byte s1 _ _ p1 in
      let (s3, el, p3) = read_length_lem n s2 (payload ++ rest) fits p2 in
      let (t, ep, left) =
        read_payload_lem r pending stream n n s3 payload rest p3 refl (omega arith) in
      let bits = short_bits (length_byte n) (length_byte_small n) in
      let parts = read_frame_parts s s1 s2 s3 t _ _ n payload e0 e1 bits el fits ep in
      (t, parts ∙ ap (λ code. done (code, payload) t) (opcode_bits opcode small), left)
