-- ===== src/Pipeline/Id.antt =====
-- internal/pipeline/id.go: UUID v4. The sixteen random bytes are an argument; an ID is the list of
-- the bytes of its text.
use Prim.Native.Nat.{bit_and, bit_or}
use lp.Base.{
  ℕ, zero, suc, ◌+◌, ◌/◌, ◌%◌, ◌<◌, ◌≤◌, ltb, ◌==◌, ◌≡◌, refl, ap, ◌⊎◌, Bool, true, false, ◌&&◌,
  List, [], ◌∷◌, ◌++◌, some, get_elem?, length, take, drop, arith, if◌then◌else◌,
}

-- A lower-case hexadecimal digit
unfoldable pub hex_digit : ℕ → ℕ
hex_digit d = if ltb d 10 then d + b'0' else d + 87

-- %x on a slice of bytes
unfoldable pub hex_bytes : List ℕ → List ℕ
unfolding hex_digit
hex_bytes [] = []
hex_bytes (b ∷ bs) = hex_digit (b / 16) ∷ hex_digit (b % 16) ∷ hex_bytes bs

-- An in-place change of one byte
unfoldable pub update_byte : ℕ → (ℕ → ℕ) → List ℕ → List ℕ
update_byte i f [] = []
update_byte zero f (b ∷ bs) = f b ∷ bs
update_byte (suc i) f (b ∷ bs) = b ∷ update_byte i f bs

-- uuid[6] and uuid[8]
unfoldable pub set_version : ℕ → ℕ
set_version b = bit_or (bit_and b 0x0f) 0x40

unfoldable pub set_variant : ℕ → ℕ
set_variant b = bit_or (bit_and b 0x3f) 0x80

-- uuid[from:from+count] in %x
unfoldable pub hex_slice : ℕ → ℕ → List ℕ → List ℕ
unfolding hex_bytes
hex_slice from count uuid = hex_bytes (take count (drop from uuid))

-- newID, given the bytes that rand.Read has put into the array
unfoldable pub new_id : List ℕ → List ℕ
unfolding update_byte set_version set_variant hex_slice
new_id random =
    let uuid : List ℕ = update_byte 8 set_variant (update_byte 6 set_version random) in
    hex_slice 0 4 uuid
    ++ (b'-'
        ∷ (hex_slice 4 2 uuid
            ++ (b'-'
                ∷ (hex_slice 6 2 uuid
                    ++ (b'-' ∷ (hex_slice 8 2 uuid ++ (b'-' ∷ hex_slice 10 6 uuid)))))))

-- A test at every byte below `top`.
bytes_pass : (ℕ → Bool) → ℕ → Bool
bytes_pass test zero = true
bytes_pass test (suc top) = if test top then bytes_pass test top else false

byte_passes : (test : ℕ → Bool) (top b : ℕ) → b < top → bytes_pass test top ≡ true → test b ≡ true
unfolding bytes_pass
byte_passes test zero b below passed = absurd (omega arith)
byte_passes test (suc top) b below passed = ground (arith, byte_passes test top b)

version_bytes : bytes_pass (λ b. set_version b / 16 == 4) 256 ≡ true
unfolding bytes_pass set_version
version_bytes = refl

variant_bytes : bytes_pass (λ b. set_variant b / 64 == 2 && ltb (set_variant b) 256) 256 ≡ true
unfolding bytes_pass set_variant
variant_bytes = refl

set_version_nibble : (b : ℕ) → b < 256 → set_version b / 16 ≡ 4
set_version_nibble b h = ground (arith, byte_passes _ 256 b h version_bytes)

set_variant_bits : (b : ℕ) → b < 256 → (set_variant b / 64 ≡ 2) × (set_variant b < 256)
set_variant_bits b h = ground (arith, byte_passes _ 256 b h variant_bytes)

version_digit : (v : ℕ) → v / 16 ≡ 4 → hex_digit (v / 16) ≡ b'4'
unfolding hex_digit
version_digit v h = rw h refl

variant_digit :
    (v : ℕ)
    → (v / 64 ≡ 2) × (v < 256)
    → ((b'8' ≤ hex_digit (v / 16)) × (hex_digit (v / 16) ≤ b'9'))
      ⊎ ((b'a' ≤ hex_digit (v / 16)) × (hex_digit (v / 16) ≤ b'b'))
unfolding hex_digit
variant_digit v h = ground arith

-- For any sixteen bytes, newID returns 36 characters, with dashes at the places 8, 13, 18 and 23,
-- the version digit 4 at place 14, and one of 8, 9, a and b as the variant digit at place 19.
pub new_id_form :
    (r0 r1 r2 r3 r4 r5 r6 r7 r8 r9 r10 r11 r12 r13 r14 r15 : ℕ)
    → r6 < 256
    → r8 < 256
    → let id = new_id (
        r0 ∷ r1 ∷ r2 ∷ r3 ∷ r4 ∷ r5 ∷ r6 ∷ r7 ∷ r8 ∷ r9 ∷ r10 ∷ r11 ∷ r12 ∷ r13 ∷ r14 ∷ r15 ∷ []) in
      (length id ≡ 36)
      × (get_elem? id 8 ≡ some b'-')
      × (get_elem? id 13 ≡ some b'-')
      × (get_elem? id 14 ≡ some b'4')
      × (get_elem? id 18 ≡ some b'-')
      × ((d : ℕ) × (get_elem? id 19 ≡ some d)
          × (((b'8' ≤ d) × (d ≤ b'9')) ⊎ ((b'a' ≤ d) × (d ≤ b'b'))))
      × (get_elem? id 23 ≡ some b'-')
unfolding new_id
new_id_form r0 r1 r2 r3 r4 r5 r6 r7 r8 r9 r10 r11 r12 r13 r14 r15 h6 h8 = (
  refl,
  refl,
  refl,
  ap some (version_digit (set_version r6) (set_version_nibble r6 h6)),
  refl,
  (_, refl, variant_digit (set_variant r8) (set_variant_bits r8 h8)),
  refl,
)
