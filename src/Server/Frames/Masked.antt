-- ===== src/Server/Frames/Masked.antt =====
-- cmd/server/ws.go: wsReadFrame on the masked frames that clients send.
use Prim.Native.Nat.{bit_and, bit_or, bit_xor}
use lp.Base.{
  ℕ, zero, suc, ◌%◌, ◌≤◌, ◌<◌, ltb, ◌==◌, Bool, true, List, [], ◌∷◌, ◌++◌, some, ◌≡◌, refl, sym,
  ◌∙◌, ap, length, get_elem?, arith, ◌&&◌,
}
use mathlib.Core.List.{append_assoc}
use lp.Server.Frames.{
  done, Reader, read_payload, read_length, read_mask, read_body, read_frame, unmask, mask_byte,
  filled,
}
use lp.Server.Frames.RoundTrip.{
  IsStream, HasWholeHeaders, holds_at_bytes, holds_at_byte, opcode_bits, length_byte, length_tail,
  length_byte_small, read_payload_lem, read_length_lem,
}

xor_table : holds_at_bytes (λ m. holds_at_bytes (λ b. bit_xor (bit_xor b m) m == b) 256) 256 ≡ true
unfolding holds_at_bytes
xor_table = refl

xor_twice : (b m : ℕ) → b < 256 → m < 256 → bit_xor (bit_xor b m) m ≡ b
xor_twice b m hb hm =
    let row = holds_at_byte _ 256 m hm xor_table in ground (arith, holds_at_byte _ 256 b hb row)

masked_table :
    holds_at_bytes
      (λ b. ltb 0 (bit_and (bit_or 0x80 b) 0x80) && bit_and (bit_or 0x80 b) 0x7f == b)
      128
    ≡ true
unfolding holds_at_bytes
masked_table = refl

masked_bits :
    (b : ℕ) → b < 128 → (0 < bit_and (bit_or 0x80 b) 0x80) × (bit_and (bit_or 0x80 b) 0x7f ≡ b)
masked_bits b h = ground (arith, holds_at_byte _ 128 b h masked_table)

unfoldable pub all_bytes : List ℕ → Bool
all_bytes [] = true
all_bytes (b ∷ bs) = ltb b 256 && all_bytes bs

mask_byte_small :
    (mask : List ℕ) (k : ℕ) → all_bytes mask ≡ true → mask_byte (get_elem? mask k) < 256
unfolding all_bytes
mask_byte_small [] k h = omega arith
mask_byte_small (m ∷ ms) zero h = ground arith
mask_byte_small (m ∷ ms) (suc k) h = ground (arith, mask_byte_small ms k)

unmask_twice :
    (mask : List ℕ) (i : ℕ) (bs : List ℕ)
    → all_bytes mask ≡ true
    → all_bytes bs ≡ true
    → unmask mask i (unmask mask i bs) ≡ bs
unfolding unmask all_bytes
unmask_twice mask i [] hm hb = refl
unmask_twice mask i (b ∷ bs) hm hb =
    let small : b < 256 = ground arith in
    let whole : all_bytes bs ≡ true = ground arith in
    rw (xor_twice b (mask_byte (get_elem? mask (i % 4))) small (mask_byte_small mask (i % 4) hm))
      (ap (λ l. b ∷ l) (unmask_twice mask (suc i) bs hm whole))

length-unmask : (mask : List ℕ) (i : ℕ) (bs : List ℕ) → length (unmask mask i bs) ≡ length bs
unfolding unmask
length-unmask mask i [] = refl
length-unmask mask i (b ∷ bs) = omega (arith, length-unmask mask (suc i) bs)

-- RFC 6455, 5.3: an octet of the payload is masked by the next octet of the key, which starts again
-- behind its fourth.
unfoldable pub masked : ℕ → ℕ → ℕ → ℕ → List ℕ → List ℕ
masked m0 m1 m2 m3 [] = []
masked m0 m1 m2 m3 (b ∷ bs) = bit_xor b m0 ∷ masked m1 m2 m3 m0 bs

-- The loop of wsReadFrame, wherever it stands in the key, does the same.
unmask-masked :
    (m0 m1 m2 m3 i : ℕ) (bs : List ℕ)
    → let key = m0 ∷ m1 ∷ m2 ∷ m3 ∷ [] in
      (i % 4 ≡ 0 → unmask key i bs ≡ masked m0 m1 m2 m3 bs)
      × (i % 4 ≡ 1 → unmask key i bs ≡ masked m1 m2 m3 m0 bs)
      × (i % 4 ≡ 2 → unmask key i bs ≡ masked m2 m3 m0 m1 bs)
      × (i % 4 ≡ 3 → unmask key i bs ≡ masked m3 m0 m1 m2 bs)
unfolding unmask masked
unmask-masked m0 m1 m2 m3 i [] = (λ h. refl, λ h. refl, λ h. refl, λ h. refl)
unmask-masked m0 m1 m2 m3 i (b ∷ bs) =
    let (at0, at1, at2, at3) = unmask-masked m0 m1 m2 m3 (suc i) bs in
    (
      λ h. rw h (ap (λ l. bit_xor b m0 ∷ l) (at1 (omega (arith, h)))),
      λ h. rw h (ap (λ l. bit_xor b m1 ∷ l) (at2 (omega (arith, h)))),
      λ h. rw h (ap (λ l. bit_xor b m2 ∷ l) (at3 (omega (arith, h)))),
      λ h. rw h (ap (λ l. bit_xor b m3 ∷ l) (at0 (omega (arith, h)))),
    )

-- The frame that a client sends: RFC 6455, 5.2 and 5.3
unfoldable pub client_frame : ℕ → ℕ → ℕ → ℕ → ℕ → List ℕ → List ℕ
unfolding masked length_byte length_tail
client_frame opcode m0 m1 m2 m3 payload =
    bit_or 0x80 opcode
    ∷ bit_or 0x80 (length_byte (length payload))
    ∷ (length_tail (length payload) ++ ((m0 ∷ m1 ∷ m2 ∷ m3 ∷ []) ++ masked m0 m1 m2 m3 payload))

module _ {S : Type 0} (r : Reader S) (pending : S → List ℕ) (stream : IsStream r pending)
    (headers : HasWholeHeaders r pending) where
  read_mask_lem :
      (s t : S) (m0 m1 m2 m3 : ℕ)
      → r.read 4 s ≡ some (m0 ∷ m1 ∷ m2 ∷ m3 ∷ [], t)
      → read_mask r true s ≡ done (m0 ∷ m1 ∷ m2 ∷ m3 ∷ []) t
  unfolding read_mask filled
  read_mask_lem s t m0 m1 m2 m3 e = rw e refl

  read_frame_parts :
      (s s1 s2 s3 s4 t : S) (b0 b1 n : ℕ) (mask payload : List ℕ)
      → r.read_byte s ≡ some (b0, s1)
      → r.read_byte s1 ≡ some (b1, s2)
      → 0 < bit_and b1 0x80
      → read_length r (bit_and b1 0x7f) s2 ≡ done n s3
      → read_mask r true s3 ≡ done mask s4
      → n ≤ 0x100000
      → read_payload r n n s4 ≡ done payload t
      → read_frame r s ≡ done (bit_and b0 0x0f, unmask mask 0 payload) t
  unfolding read_frame read_body
  read_frame_parts s s1 s2 s3 s4 t b0 b1 n mask payload e0 e1 high el em h ep =
      ground (arith, e0, e1, high, el, em, ep)

  -- On a reader that delivers the bytes of a client's masked frame, in reads of any size but whole in
  -- the header, wsReadFrame returns the opcode and the payload before masking and leaves the bytes
  -- after them, when the opcode is below 16 and the payload has at most 1 << 20 bytes.
  pub read-client_frame :
      (opcode m0 m1 m2 m3 : ℕ) (payload rest : List ℕ) (s : S)
      → opcode < 16
      → all_bytes (m0 ∷ m1 ∷ m2 ∷ m3 ∷ []) ≡ true
      → all_bytes payload ≡ true
      → length payload ≤ 0x100000
      → pending s ≡ client_frame opcode m0 m1 m2 m3 payload ++ rest
      → (t : S) × (read_frame r s ≡ done (opcode, payload) t) × (pending t ≡ rest)
  unfolding client_frame
  read-client_frame opcode m0 m1 m2 m3 payload rest s small mask_ok payload_ok fits e =
      let mask : List ℕ = m0 ∷ m1 ∷ m2 ∷ m3 ∷ [] in
      let n : ℕ = length payload in
      let coded : List ℕ = unmask mask 0 payload in
      let e' =
        e
        ∙ ap
            (λ (body : List ℕ).
              (bit_or 0x80 opcode ∷ bit_or 0x80 (length_byte n) ∷ (length_tail n ++ (mask ++ body)))
              ++ rest)
            (sym ((unmask-masked m0 m1 m2 m3 0 payload).0 refl)) in
      let (high, low) = masked_bits (length_byte n) (length_byte_small n) in
      let (s1, e0, p1) = stream.next_byte s _ _ e' in
      let (s2, e1, p2) = stream.next_byte s1 _ _ p1 in
      let (s3, el, p3) =
        read_length_lem r pending stream headers n s2 (mask ++ (coded ++ rest)) fits
          (p2 ∙ append_assoc (length_tail n) (mask ++ coded) rest) in
      let (s4, em, p4) = headers.whole s3 mask (coded ++ rest) (omega arith) (omega arith) p3 in
      let (t, ep, left) =
        read_payload_lem r pending stream n n s4 coded rest p4 (length-unmask mask 0 payload)
          (omega arith) in
      let parts =
        read_frame_parts s s1 s2 s3 s4 t _ _ n mask coded e0 e1 high
          (ap (λ b. read_length r b s2) low ∙ el) (read_mask_lem s3 s4 m0 m1 m2 m3 em) fits ep in
      (
        t,
        parts
            ∙ ap (λ code. done (code, unmask mask 0 coded) t) (opcode_bits opcode small)
            ∙ ap (λ plain. done (opcode, plain) t) (unmask_twice mask 0 payload mask_ok payload_ok),
        left,
      )
