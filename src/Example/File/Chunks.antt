-- ===== src/Example/File/Chunks.antt =====
-- The chunks of a file: what they join to, what the producer yields, and where an empty one is among
-- them.
use mongoose_cpp.Prelude.{
  ℕ, zero, suc, ◌+◌, ◌-◌, ◌/◌, ◌%◌, ◌≤◌, ◌<◌, ◌≡◌, refl, sym, ap, ◌∙◌, true, false, List, [], ◌∷◌,
  ◌++◌, some, Bytes, arith, length, take, drop, concat, ltb, Bool-cases, inl, inr, subst,
  append-nil, ltb→lt, subst,
}
use mongoose_cpp.Http.Connection.Pump.{Yields}
use mongoose_cpp.Example.File.{
  Ifstream, opened, read, next_chunk, after_calls, file_producer, read_chunks, file_chunks,
}

take-append-drop : (n : ℕ) (xs : Bytes) → take n xs ++ drop n xs ≡ xs
take-append-drop zero xs = refl
take-append-drop (suc n) [] = refl
take-append-drop (suc n) (x ∷ xs) = ap (λ l. x ∷ l) (take-append-drop n xs)

length-drop : (n : ℕ) (xs : Bytes) → length (drop n xs) ≡ length xs - n
length-drop zero xs = omega arith
length-drop (suc n) [] = omega arith
length-drop (suc n) (x ∷ xs) = length-drop n xs ∙ omega arith

take_all : (n : ℕ) (xs : Bytes) → length xs ≤ n → take n xs ≡ xs
take_all zero [] h = refl
take_all zero (x ∷ xs) h = absurd (omega (arith, h))
take_all (suc n) [] h = refl
take_all (suc n) (x ∷ xs) h = ap (λ l. x ∷ l) (take_all n xs (omega (arith, h)))

-- A file at its end gives no chunk more.
read_chunks_eof :
    (fuel : ℕ) (rest : Bytes) → read_chunks fuel (record { rest = rest; eof = true }) ≡ []
unfolding read_chunks
read_chunks_eof zero rest = refl
read_chunks_eof (suc fuel) rest = refl

-- One step of a file that is not at its end: more than 32 characters are left, or it meets the end.
read_chunks_step :
    (fuel : ℕ) (rest : Bytes)
    → read_chunks (suc fuel) (record { rest = rest; eof = false })
      ≡ take 32 rest ∷ read_chunks fuel (record { rest = drop 32 rest; eof = ltb (length rest) 32 })
unfolding read_chunks read
read_chunks_step fuel rest = refl

read_chunks_last :
    (fuel : ℕ) (rest : Bytes)
    → length rest < 32
    → read_chunks (suc fuel) (record { rest = rest; eof = false }) ≡ rest ∷ []
read_chunks_last fuel rest h =
    read_chunks_step fuel rest
    ∙ ap (λ b. take 32 rest ∷ read_chunks fuel (record { rest = drop 32 rest; eof = b }))
        (ground (arith, h))
    ∙ ap (λ l. take 32 rest ∷ l) (read_chunks_eof fuel (drop 32 rest))
    ∙ ap (λ l. l ∷ []) (take_all 32 rest (omega (arith, h)))

read_chunks_more :
    (fuel : ℕ) (rest : Bytes)
    → 32 ≤ length rest
    → read_chunks (suc fuel) (record { rest = rest; eof = false })
      ≡ take 32 rest ∷ read_chunks fuel (record { rest = drop 32 rest; eof = false })
read_chunks_more fuel rest h =
    read_chunks_step fuel rest
    ∙ ap (λ b. take 32 rest ∷ read_chunks fuel (record { rest = drop 32 rest; eof = b }))
        (ground (arith, h))

concat-read_chunks :
    (fuel : ℕ) (rest : Bytes)
    → length rest / 32 < fuel
    → concat (read_chunks fuel (record { rest = rest; eof = false })) ≡ rest
concat-read_chunks zero rest h = absurd (omega (arith, h))
concat-read_chunks (suc fuel) rest h = elim (Bool-cases (ltb (length rest) 32)) [
  | inl p ↦ rw (read_chunks_last fuel rest (ltb→lt (length rest) 32 p)) (append-nil rest)
  | inr p ↦ rw (read_chunks_more fuel rest (ground (arith, p))) (
      ap (λ l. take 32 rest ++ l)
        (concat-read_chunks fuel (drop 32 rest) (omega (arith, h, length-drop 32 rest, ge p)))
      ∙ take-append-drop 32 rest)
]
  where
    ge : ltb (length rest) 32 ≡ false → 32 ≤ length rest
    ge p = ground (arith, p)

-- The chunks of a file join to its content.
pub concat-file_chunks : (content : Bytes) → concat (file_chunks content) ≡ content
unfolding file_chunks opened
concat-file_chunks content = concat-read_chunks (length content / 32 + 1) content (omega arith)

-- The number of chunks, the last of which may be empty.
length-read_chunks :
    (fuel : ℕ) (rest : Bytes)
    → length rest / 32 < fuel
    → length (read_chunks fuel (record { rest = rest; eof = false })) ≡ length rest / 32 + 1
length-read_chunks zero rest h = absurd (omega (arith, h))
length-read_chunks (suc fuel) rest h = elim (Bool-cases (ltb (length rest) 32)) [
  | inl p ↦
      rw (read_chunks_last fuel rest (ltb→lt (length rest) 32 p))
        (omega (arith, ltb→lt (length rest) 32 p))
  | inr p ↦ rw (read_chunks_more fuel rest (ground (arith, p))) (
      omega (
        arith,
        length-read_chunks fuel (drop 32 rest) (omega (arith, h, length-drop 32 rest, ge p)),
        length-drop 32 rest,
        ge p,
      ))
]
  where
    ge : ltb (length rest) 32 ≡ false → 32 ≤ length rest
    ge p = ground (arith, p)

pub length-file_chunks : (content : Bytes) → length (file_chunks content) ≡ length content / 32 + 1
unfolding file_chunks opened
length-file_chunks content = length-read_chunks (length content / 32 + 1) content (omega arith)

-- The producer yields what the loop reads.
produced :
    (f : Ifstream) (rest : Bytes) (n fuel : ℕ)
    → after_calls f n ≡ record { rest = rest; eof = false }
    → length rest / 32 < fuel
    → Yields (file_producer f).next n (read_chunks fuel (record { rest = rest; eof = false }))
unfolding file_producer after_calls next_chunk read read_chunks
produced f rest n zero h q = absurd (omega (arith, q))
produced f rest n (suc fuel) h q = elim (Bool-cases (ltb (length rest) 32)) [
  | inl p ↦
      subst (Yields (file_producer f).next n)
        (sym (read_chunks_last fuel rest (ltb→lt (length rest) 32 p)))
        (
          ap (λ g. (next_chunk g).0) h
              ∙ ap some (take_all 32 rest (omega (arith, ltb→lt (length rest) 32 p))),
          ap (λ g. (next_chunk g).0)
              (ap (λ g. (next_chunk g).1) h ∙ ap (λ b. record { rest = drop 32 rest; eof = b }) p),
        )
  | inr p ↦ subst (Yields (file_producer f).next n) (sym (read_chunks_more fuel rest (ge p))) (
    ap (λ g. (next_chunk g).0) h,
    produced f (drop 32 rest) (suc n) fuel
        (ap (λ g. (next_chunk g).1) h ∙ ap (λ b. record { rest = drop 32 rest; eof = b }) p)
        (omega (arith, q, length-drop 32 rest, ge p)),
  )
]
  where
    ge : ltb (length rest) 32 ≡ false → 32 ≤ length rest
    ge p = ground (arith, p)

pub file_producer-Yields :
    (content : Bytes) → Yields (file_producer (opened content)).next 0 (file_chunks content)
unfolding file_chunks opened after_calls
file_producer-Yields content =
    produced (opened content) content 0 (length content / 32 + 1) refl (omega arith)

ends_empty :
    (fuel : ℕ) (rest : Bytes)
    → length rest / 32 < fuel
    → length rest % 32 ≡ 0
    → (full : List Bytes) × (read_chunks fuel (record { rest = rest; eof = false })
        ≡ full ++ [] ∷ [])
ends_empty zero rest h e = absurd (omega (arith, h))
ends_empty (suc fuel) [] h e = ([], read_chunks_last fuel [] (omega arith))
ends_empty (suc fuel) (c ∷ s) h e =
    let more : 32 ≤ length (c ∷ s) = omega (arith, e) in
    let (full, q) =
      ends_empty fuel (drop 32 (c ∷ s)) (omega (arith, h, length-drop 32 (c ∷ s), more))
        (omega (arith, e, length-drop 32 (c ∷ s), more)) in
    (take 32 (c ∷ s) ∷ full, read_chunks_more fuel (c ∷ s) more ∙ ap (λ l. take 32 (c ∷ s) ∷ l) q)

-- A file whose length is a multiple of 32 has an empty chunk behind the others.
pub file_chunks-ends_empty :
    (content : Bytes)
    → length content % 32 ≡ 0
    → (full : List Bytes) × (file_chunks content ≡ full ++ [] ∷ [])
unfolding file_chunks opened
file_chunks-ends_empty content e = ends_empty (length content / 32 + 1) content (omega arith) e
