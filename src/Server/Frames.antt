-- ===== src/Server/Frames.antt =====
-- cmd/server/ws.go, wsReadFrame and wsWriteFrame. A byte is a number below 256. The connection's
-- writes and the buffered reader are parameters: a reader in a state `S` may return fewer bytes than
-- it is asked for.
mod RoundTrip
mod Bounds
mod Masked
mod Tests
use Prim.Native.Nat.{bit_and, bit_or, bit_xor}
use lp.Base.{
  ℕ, zero, suc, ◌+◌, ◌-◌, ◌*◌, ◌/◌, ◌%◌, ltb, ◌==◌, Bool, true, false, List, [], ◌∷◌, ◌++◌, Option,
  none, some, length, take, replicate, get_elem?, if◌then◌else◌,
}

-- What wsReadFrame returns: a value with the reader's new state, the reader's error, or the error
-- "frame too large". `stuck` stands for a loop that runs on, since the reader returns no bytes.
pub data ReadResult (A S : Type 0) : Type 0 where
  done : A → S → ReadResult A S
  failed stuck : ReadResult A S
  too_large : ℕ → ReadResult A S

infixl 5 ◌>>=◌
abbrev pub ◌>>=◌ : {A B S : Type 0} → ReadResult A S → (A → S → ReadResult B S) → ReadResult B S
done a s >>= f = f a s
failed >>= f = failed
stuck >>= f = stuck
too_large n >>= f = too_large n

-- bufio.Reader: ReadByte, and Read with a buffer of the given length; none is an error.
pub record Reader (S : Type 0) : Type 0 where
  pub read_byte : S → Option (ℕ × S)
  pub read : ℕ → S → Option (List ℕ × S)

abbrev pub or_failed : {A S : Type 0} → Option (A × S) → ReadResult A S
or_failed none = failed
or_failed (some (a, s)) = done a s

-- A buffer of `n` zero bytes after Read has put `bytes` at its front
unfoldable pub filled : ℕ → List ℕ → List ℕ
filled n bytes = take n (bytes ++ replicate n 0)

-- binary.BigEndian.Uint16 and Uint64
unfoldable pub big_endian : ℕ → List ℕ → ℕ
big_endian acc [] = acc
big_endian acc (b ∷ bs) = big_endian (acc * 256 + b) bs

-- binary.BigEndian.PutUint64
unfoldable pub put_uint64 : ℕ → List ℕ
put_uint64 n =
    n / 0x100000000000000 % 256
    ∷ n / 0x1000000000000 % 256
    ∷ n / 0x10000000000 % 256
    ∷ n / 0x100000000 % 256
    ∷ n / 0x1000000 % 256
    ∷ n / 0x10000 % 256
    ∷ n / 0x100 % 256
    ∷ n % 256
    ∷ []

-- mask[i%4]
abbrev pub mask_byte : Option ℕ → ℕ
mask_byte none = 0
mask_byte (some b) = b

-- The unmasking loop, from index `i` on
unfoldable pub unmask : List ℕ → ℕ → List ℕ → List ℕ
unmask mask i [] = []
unmask mask i (b ∷ bs) = bit_xor b (mask_byte (get_elem? mask (i % 4))) ∷ unmask mask (suc i) bs

module _ {S : Type 0} (r : Reader S) where
  -- The loop that reads the payload, with `n` bytes missing
  unfoldable pub read_payload : ℕ → ℕ → S → ReadResult (List ℕ) S
  read_payload fuel zero s = done [] s
  read_payload zero (suc n) s = stuck
  read_payload (suc fuel) (suc n) s = elim (r.read (suc n) s) [
    | none ↦ failed
    | some (bytes, s') ↦
        read_payload fuel (suc n - length bytes) s' >>= λ rest t. done (bytes ++ rest) t
  ]

  -- The switch on the length
  unfoldable pub read_length : ℕ → S → ReadResult ℕ S
  unfolding filled big_endian
  read_length short s =
      if short == 126
      then or_failed (r.read 2 s) >>= (λ bytes t. done (big_endian 0 (filled 2 bytes)) t)
      else if short == 127
      then or_failed (r.read 8 s) >>= (λ bytes t. done (big_endian 0 (filled 8 bytes)) t)
      else done short s

  unfoldable pub read_mask : Bool → S → ReadResult (List ℕ) S
  unfolding filled
  read_mask masked s =
      if masked then or_failed (r.read 4 s) >>= (λ bytes t. done (filled 4 bytes) t) else done [] s

  -- From the check of the length on
  unfoldable pub read_body : Bool → ℕ → List ℕ → S → ReadResult (List ℕ) S
  unfolding read_payload unmask
  read_body masked n mask s =
      if ltb 0x100000 n
      then too_large n
      else read_payload n n s
        >>= (λ payload t. done (if masked then unmask mask 0 payload else payload) t)

  -- wsReadFrame: the opcode and the payload
  unfoldable pub read_frame : S → ReadResult (ℕ × List ℕ) S
  unfolding read_length read_mask read_body
  read_frame s = or_failed (r.read_byte s) >>= λ b0 s1. or_failed (r.read_byte s1) >>= λ b1 s2.
      let masked : Bool = if bit_and b1 0x80 == 0 then false else true in
      read_length (bit_and b1 0x7f) s2 >>= λ n s3. read_mask masked s3 >>= λ mask s4.
      read_body masked n mask s4 >>= λ payload s5. done (bit_and b0 0x0f, payload) s5

-- The header that wsWriteFrame builds
unfoldable pub frame_header : ℕ → ℕ → List ℕ
unfolding put_uint64
frame_header opcode n =
    bit_or 0x80 opcode
    ∷ (if ltb n 126
        then n ∷ []
        else if ltb n 65536
        then 126 ∷ (n / 256 % 256) ∷ (n % 256) ∷ []
        else 127 ∷ put_uint64 n)

-- What wsWriteFrame writes when both writes succeed
unfoldable pub frame_bytes : ℕ → List ℕ → List ℕ
unfolding frame_header
frame_bytes opcode payload = frame_header opcode (length payload) ++ payload
