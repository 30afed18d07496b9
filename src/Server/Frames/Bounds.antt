-- ===== src/Server/Frames/Bounds.antt =====
-- cmd/server/ws.go: wsReadFrame on any reader that returns at most as many bytes as asked for.
use Prim.Native.Nat.{bit_and}
use lp.Base.{
  ℕ, zero, suc, ◌-◌, ◌≤◌, ◌<◌, ltb, ◌==◌, Bool, true, false, List, [], ◌∷◌, ◌++◌, Option, none,
  some, length, length-append, ◌≡◌, refl, ◌∙◌, ◌⊎◌, inl, inr, arith, if◌then◌else◌,
}
use lp.Server.Frames.{
  ReadResult, done, failed, stuck, too_large, ◌>>=◌, or_failed, Reader, read_payload, read_length,
  read_mask, read_body, read_frame, filled, big_endian, unmask,
}
use lp.Server.Frames.RoundTrip.{holds_at_bytes, holds_at_byte}

-- A reader that returns bytes, at most as many as it is asked for
pub record IsReader {S : Type 0} (r : Reader S) : Type 0 where
  pub is_byte : (s t : S) (b : ℕ) → r.read_byte s ≡ some (b, t) → b < 256
  pub at_most :
      (n : ℕ) (s t : S) (bytes : List ℕ) → r.read (suc n) s ≡ some (bytes, t) → length bytes ≤ suc n

-- Read, asked for bytes, has given none and no error.
abbrev pub GivesNothing : {S : Type 0} → Reader S → Type 0
GivesNothing {S} r = (n : ℕ) × (s : S) × (t : S) × (r.read (suc n) s ≡ some ([], t))

-- Any value
abbrev Any : {A : Type 0} → A → Type 0
Any a = Unit {0}

module _ {S : Type 0} (E : Type 0) where
  -- A value with the property, the reader's error, or a length above 1 << 20; `stuck` only with E
  abbrev pub Returns : {A : Type 0} → (A → Type 0) → ReadResult A S → Type 0
  Returns P (done a s) = P a
  Returns P failed = Unit {0}
  Returns P stuck = E
  Returns P (too_large n) = 0x100000 < n

  Returns-bind :
      {A B : Type 0} (P : A → Type 0) (Q : B → Type 0) (x : ReadResult A S)
      (f : A → S → ReadResult B S)
      → Returns P x
      → ((a : A) (s : S) → P a → Returns Q (f a s))
      → Returns Q (x >>= f)
  Returns-bind P Q (done a s) f h next = next a s h
  Returns-bind P Q failed f h next = tt
  Returns-bind P Q stuck f h next = h
  Returns-bind P Q (too_large n) f h next = h

  Returns-or_failed :
      {A : Type 0} (P : A → Type 0) (x : Option (A × S))
      → ((a : A) (s : S) → x ≡ some (a, s) → P a)
      → Returns P (or_failed x)
  Returns-or_failed P none h = tt
  Returns-or_failed P (some (a, s)) h = h a s refl

  Returns-read :
      {A B : Type 0} (P : B → Type 0) (x : Option (A × S)) (f : A → S → ReadResult B S)
      → ((a : A) (s : S) → x ≡ some (a, s) → Returns P (f a s))
      → Returns P (elim x [ none ↦ failed | some (a, s) ↦ f a s ])
  Returns-read P none f h = tt
  Returns-read P (some (a, s)) f h = h a s refl

  Returns-if :
      {A : Type 0} (P : A → Type 0) (b : Bool) (x y : ReadResult A S)
      → (b ≡ true → Returns P x)
      → (b ≡ false → Returns P y)
      → Returns P (if b then x else y)
  Returns-if P true x y holds fails = holds refl
  Returns-if P false x y holds fails = fails refl

  Returns-filled :
      (x : Option (List ℕ × S)) (n : ℕ)
      → Returns Any (or_failed x >>= (λ bytes t. done (big_endian 0 (filled n bytes)) t))
  Returns-filled none n = tt
  Returns-filled (some (bytes, s)) n = tt

length-unmask : (mask : List ℕ) (i : ℕ) (bs : List ℕ) → length (unmask mask i bs) ≡ length bs
unfolding unmask
length-unmask mask i [] = refl
length-unmask mask i (b ∷ bs) = ground (arith, length-unmask mask (suc i) bs)

opcode_table : holds_at_bytes (λ b. ltb (bit_and b 0x0f) 16) 256 ≡ true
unfolding holds_at_bytes
opcode_table = refl

opcode_small : (b : ℕ) → b < 256 → bit_and b 0x0f < 16
opcode_small b h = ground (arith, holds_at_byte _ 256 b h opcode_table)

module _ {S : Type 0} (r : Reader S) (reader : IsReader r) where
  -- Each read that gives a byte leaves enough fuel.
  left_over :
      (fuel n : ℕ) (s t : S) (bytes : List ℕ)
      → r.read (suc n) s ≡ some (bytes, t)
      → (suc n ≤ suc fuel) ⊎ GivesNothing r
      → (suc n - length bytes ≤ fuel) ⊎ GivesNothing r
  left_over fuel n s t [] e h = inr (n, s, t, e)
  left_over fuel n s t (b ∷ bytes) e (inl h) = inl (omega arith)
  left_over fuel n s t (b ∷ bytes) e (inr idle) = inr idle

  read_payload-Returns :
      (fuel n : ℕ) (s : S)
      → (n ≤ fuel) ⊎ GivesNothing r
      → Returns (GivesNothing r) (λ (bytes : List ℕ). length bytes ≡ n) (read_payload r fuel n s)
  unfolding read_payload
  read_payload-Returns fuel zero s h = refl
  read_payload-Returns zero (suc n) s (inl h) = absurd (omega arith)
  read_payload-Returns zero (suc n) s (inr idle) = idle
  read_payload-Returns (suc fuel) (suc n) s h =
      Returns-read (GivesNothing r) _ (r.read (suc n) s)
        (λ bytes t.
          read_payload r fuel (suc n - length bytes) t >>= (λ rest u. done (bytes ++ rest) u))
        (λ bytes t e.
          let at_most = reader.at_most n s t bytes e in
          Returns-bind (GivesNothing r) (λ (rest : List ℕ). length rest ≡ suc n - length bytes) _
            (read_payload r fuel (suc n - length bytes) t) _
            (read_payload-Returns fuel (suc n - length bytes) t (left_over fuel n s t bytes e h))
            (λ rest u k. length-append bytes rest ∙ omega (arith, k, at_most)))

  read_length-Returns : (short : ℕ) (s : S) → Returns (GivesNothing r) Any (read_length r short s)
  unfolding read_length
  read_length-Returns short s =
      Returns-if (GivesNothing r) Any (short == 126) _ _
        (λ e. Returns-filled (GivesNothing r) (r.read 2 s) 2)
        (λ e.
          Returns-if (GivesNothing r) Any (short == 127) _ _
            (λ e. Returns-filled (GivesNothing r) (r.read 8 s) 8) (λ e. tt))

  read_mask-Returns : (masked : Bool) (s : S) → Returns (GivesNothing r) Any (read_mask r masked s)
  unfolding read_mask
  read_mask-Returns true s =
      Returns-bind (GivesNothing r) Any Any (or_failed (r.read 4 s)) _
        (Returns-or_failed (GivesNothing r) Any (r.read 4 s) (λ a t e. tt)) (λ a t e. tt)
  read_mask-Returns false s = tt

  read_body-Returns :
      (masked : Bool) (n : ℕ) (mask : List ℕ) (s : S)
      → Returns
          (GivesNothing r)
          (λ (payload : List ℕ). length payload ≤ 0x100000)
          (read_body r masked n mask s)
  unfolding read_body
  read_body-Returns masked n mask s =
      Returns-if (GivesNothing r) _ (ltb 0x100000 n) _ _ (λ large. larger large)
        (λ fits.
          Returns-bind (GivesNothing r) (λ (bytes : List ℕ). length bytes ≡ n) _
            (read_payload r n n s) _ (read_payload-Returns n n s (inl (omega arith)))
            (λ payload t k. unmasked payload (omega (arith, k, smaller fits))))
    where
      larger : ltb 0x100000 n ≡ true → 0x100000 < n
      larger e = ground (arith, e)

      smaller : ltb 0x100000 n ≡ false → n ≤ 0x100000
      smaller e = ground (arith, e)

      unmasked :
          (payload : List ℕ)
          → length payload ≤ 0x100000
          → length (if masked then unmask mask 0 payload else payload) ≤ 0x100000
      unmasked payload h = ground (arith, h, length-unmask mask 0 payload)

  -- On a reader that gives bytes below 256, at most as many as it is asked for, wsReadFrame returns the
  -- reader's error, or the error "frame too large" for a length above 1 << 20, or an opcode below 16
  -- and a payload of at most 1 << 20 bytes, unless some Read that is asked for bytes gives none and no
  -- error: only then its loop can run on.
  pub read_frame-Returns :
      (s : S)
      → Returns
          (GivesNothing r)
          (λ (frame : ℕ × List ℕ). (frame.0 < 16) × (length frame.1 ≤ 0x100000))
          (read_frame r s)
  unfolding read_frame
  read_frame-Returns s =
      Returns-bind (GivesNothing r) (λ b. b < 256) _ (or_failed (r.read_byte s)) _
        (Returns-or_failed (GivesNothing r) _ (r.read_byte s) (λ b t e. reader.is_byte s t b e))
        (λ b0 s1 small.
          Returns-bind (GivesNothing r) Any _ (or_failed (r.read_byte s1)) _
            (Returns-or_failed (GivesNothing r) Any (r.read_byte s1) (λ b t e. tt))
            (λ b1 s2 any.
              let masked : Bool = if bit_and b1 0x80 == 0 then false else true in
              Returns-bind (GivesNothing r) Any _ (read_length r (bit_and b1 0x7f) s2) _
                (read_length-Returns (bit_and b1 0x7f) s2)
                (λ n s3 any.
                  Returns-bind (GivesNothing r) Any _ (read_mask r masked s3) _
                    (read_mask-Returns masked s3)
                    (λ mask s4 any.
                      Returns-bind (GivesNothing r)
                        (λ (payload : List ℕ). length payload ≤ 0x100000) _
                        (read_body r masked n mask s4) _ (read_body-Returns masked n mask s4)
                        (λ payload s5 bounded. (opcode_small b0 small, bounded))))))
