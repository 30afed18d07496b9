-- ===== src/Server/Frames/Tests.antt =====
-- cmd/server/ws.go: frames on concrete bytes, and a reader that returns large payloads in parts.
use lp.Base.{
  ℕ, zero, suc, ◌%◌, ◌≤◌, ◌<◌, ltb, List, [], ◌∷◌, ◌++◌, Option, none, some, ◌≡◌, refl, ◌∙◌, ap,
  length, take, drop, arith, if◌then◌else◌,
}
use lp.Server.Frames.{done, Reader, read_frame, frame_bytes}
use lp.Server.Frames.Masked.{all_bytes, client_frame, read-client_frame}
use lp.Server.Frames.Bounds.{GivesNothing, IsReader, Returns, read_frame-Returns}
use lp.Server.Frames.RoundTrip.{IsStream, HasWholeHeaders, read-write}

-- Three bytes at most in one read of more than eight
abbrev chunk : ℕ → ℕ
chunk n = if ltb 8 n then 3 else n

abbrev read_chunk : ℕ → List ℕ → Option (List ℕ × List ℕ)
read_chunk zero s = some ([], s)
read_chunk (suc n) [] = none
read_chunk (suc n) (b ∷ bs) = some (take (chunk (suc n)) (b ∷ bs), drop (chunk (suc n)) (b ∷ bs))

abbrev read_first : List ℕ → Option (ℕ × List ℕ)
read_first [] = none
read_first (b ∷ bs) = some (b, bs)

abbrev chunked : Reader (List ℕ)
chunked = record { read_byte = read_first; read = read_chunk }

abbrev same_bytes : List ℕ → List ℕ
same_bytes s = s

take-drop : (n : ℕ) (xs : List ℕ) → take n xs ++ drop n xs ≡ xs
take-drop zero xs = refl
take-drop (suc n) [] = refl
take-drop (suc n) (x ∷ xs) = ap (λ l. x ∷ l) (take-drop n xs)

length-take_at_most : (n : ℕ) (xs : List ℕ) → length (take n xs) ≤ n
length-take_at_most zero xs = omega arith
length-take_at_most (suc n) [] = omega arith
length-take_at_most (suc n) (x ∷ xs) = omega (arith, length-take_at_most n xs)

take_front : (xs ys : List ℕ) → take (length xs) (xs ++ ys) ≡ xs
take_front [] ys = refl
take_front (x ∷ xs) ys = ap (λ l. x ∷ l) (take_front xs ys)

drop_front : (xs ys : List ℕ) → drop (length xs) (xs ++ ys) ≡ ys
drop_front [] ys = refl
drop_front (x ∷ xs) ys = drop_front xs ys

take_some : (n b : ℕ) (bs : List ℕ) → 0 < n → 0 < length (take n (b ∷ bs))
take_some zero b bs h = absurd (omega arith)
take_some (suc n) b bs h = omega arith

chunk_positive : (n : ℕ) → 0 < chunk (suc n)
chunk_positive n = ground arith

chunk_bounded : (n : ℕ) → chunk (suc n) ≤ suc n
chunk_bounded n = ground arith

chunked_bytes :
    (s : List ℕ) (n b : ℕ) (rest : List ℕ)
    → s ≡ b ∷ rest
    → (bytes : List ℕ) × (t : List ℕ) × (read_chunk (suc n) s ≡ some (bytes, t))
      × (0 < length bytes)
      × (length bytes ≤ suc n)
      × (bytes ++ t ≡ s)
chunked_bytes [] n b rest e = absurd (ground arith)
chunked_bytes (x ∷ xs) n b rest e =
    let k : ℕ = chunk (suc n) in
    (
      take k (x ∷ xs),
      drop k (x ∷ xs),
      refl,
      take_some k x xs (chunk_positive n),
      omega (arith, length-take_at_most k (x ∷ xs), chunk_bounded n),
      take-drop k (x ∷ xs),
    )

chunked_byte :
    (s : List ℕ) (b : ℕ) (rest : List ℕ)
    → s ≡ b ∷ rest
    → (t : List ℕ) × (read_first s ≡ some (b, t)) × (t ≡ rest)
chunked_byte s b rest e = (rest, ap read_first e, refl)

chunked-IsStream : IsStream chunked same_bytes
chunked-IsStream = record { next_byte = chunked_byte; next_bytes = chunked_bytes }

chunked_whole :
    (s bytes rest : List ℕ)
    → 0 < length bytes
    → length bytes ≤ 8
    → s ≡ bytes ++ rest
    → (t : List ℕ) × (read_chunk (length bytes) s ≡ some (bytes, t)) × (t ≡ rest)
chunked_whole s [] rest some_bytes small e = absurd (omega arith)
chunked_whole s (b ∷ bs) rest some_bytes small e =
    let size : chunk (length (b ∷ bs)) ≡ length (b ∷ bs) = ground arith in
    (
      rest,
      ap (read_chunk (length (b ∷ bs))) e
          ∙ ap (λ k. some (take k (b ∷ (bs ++ rest)), drop k (b ∷ (bs ++ rest)))) size
          ∙ ap (λ front. some (b ∷ front, drop (length bs) (bs ++ rest))) (take_front bs rest)
          ∙ ap (λ back. some (b ∷ bs, back)) (drop_front bs rest),
      refl,
    )

chunked-HasWholeHeaders : HasWholeHeaders chunked same_bytes
chunked-HasWholeHeaders = record { whole = chunked_whole }

abbrev twelve_bytes : List ℕ
twelve_bytes = 1 ∷ 2 ∷ 3 ∷ 4 ∷ 5 ∷ 6 ∷ 7 ∷ 8 ∷ 9 ∷ 10 ∷ 11 ∷ 12 ∷ []

-- A text frame of twelve bytes with one more byte after it, in reads of three bytes
read-write_example :
    (t : List ℕ) × (read_frame chunked (frame_bytes 1 twelve_bytes ++ (7 ∷ []))
      ≡ done (1, twelve_bytes) t)
    × (t ≡ 7 ∷ [])
read-write_example =
    read-write chunked same_bytes chunked-IsStream chunked-HasWholeHeaders 1 twelve_bytes (7 ∷ [])
      (frame_bytes 1 twelve_bytes ++ (7 ∷ [])) (omega arith) (omega arith) refl

-- The masked text frame of RFC 6455: "Hello"
unmask_hello :
    read_frame chunked
      (0x81 ∷ 0x85 ∷ 0x37 ∷ 0xfa ∷ 0x21 ∷ 0x3d ∷ 0x7f ∷ 0x9f ∷ 0x4d ∷ 0x51 ∷ 0x58 ∷ [])
    ≡ done (1, 0x48 ∷ 0x65 ∷ 0x6c ∷ 0x6c ∷ 0x6f ∷ []) []
unfolding read_frame
unmask_hello = refl

-- A masked text frame of twelve bytes with one more byte after it
read-client_frame_example :
    (t : List ℕ) × (read_frame chunked (client_frame 1 0x37 0xfa 0x21 0x3d twelve_bytes ++ (7 ∷ []))
      ≡ done (1, twelve_bytes) t)
    × (t ≡ 7 ∷ [])
unfolding all_bytes
read-client_frame_example =
    read-client_frame chunked same_bytes chunked-IsStream chunked-HasWholeHeaders 1 0x37 0xfa 0x21
      0x3d twelve_bytes (7 ∷ []) (client_frame 1 0x37 0xfa 0x21 0x3d twelve_bytes ++ (7 ∷ []))
      (omega arith) refl refl (omega arith) refl

-- The low bytes of the numbers in a list, whatever follows
abbrev read_low : List ℕ → Option (ℕ × List ℕ)
read_low [] = none
read_low (b ∷ bs) = some (b % 256, bs)

abbrev low_bytes : Reader (List ℕ)
low_bytes = record { read_byte = read_low; read = read_chunk }

remainder_small : (b : ℕ) → b % 256 < 256
remainder_small b = omega arith

read_low_small : (s t : List ℕ) (b : ℕ) → read_low s ≡ some (b, t) → b < 256
read_low_small [] t b e = absurd (ground (arith, e))
read_low_small (x ∷ xs) t b e = ground (arith, e, remainder_small x)

read_chunk_bounded :
    (n : ℕ) (s t bytes : List ℕ)
    → read_chunk (suc n) s ≡ some (bytes, t)
    → (0 < length bytes) × (length bytes ≤ suc n)
read_chunk_bounded n [] t bytes e = absurd (ground (arith, e))
read_chunk_bounded n (x ∷ xs) t bytes e = ground (
  arith,
  e,
  take_some (chunk (suc n)) x xs (chunk_positive n),
  length-take_at_most (chunk (suc n)) (x ∷ xs),
  chunk_bounded n,
)

low_bytes-IsReader : IsReader low_bytes
low_bytes-IsReader = record {
  is_byte = read_low_small;
  at_most = λ n s t bytes e. (read_chunk_bounded n s t bytes e).1;
}

read_frame-Returns_example :
    Returns
      (GivesNothing low_bytes)
      (λ (frame : ℕ × List ℕ). (frame.0 < 16) × (length frame.1 ≤ 0x100000))
      (read_frame low_bytes (0x81 ∷ 2 ∷ 72 ∷ 105 ∷ 7 ∷ []))
read_frame-Returns_example =
    read_frame-Returns low_bytes low_bytes-IsReader (0x81 ∷ 2 ∷ 72 ∷ 105 ∷ 7 ∷ [])
