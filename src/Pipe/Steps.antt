-- ===== src/Pipe/Steps.antt =====
-- The loop of ExPipeServer::processData (j2534_OverIP_App/expipeserver.cpp) as steps on the size and
-- the buffer: a step reads a size or cuts a message off.
use j2534_oip_wrapper.Prelude.{
  ℕ, zero, suc, ◌^◌, ◌≡◌, ◌≢◌, ◌≤◌, ◌<◌, refl, ap, arith, List, [], ◌∷◌, ◌++◌, append_assoc, false,
  Bool-cases, inl, inr, length, take, drop, ne→==, lt→ltb, le→leb, length-append,
}
use j2534_oip_wrapper.Prelude.Bytes.{of_le32}
use j2534_oip_wrapper.Pipe.{
  Assembly, is_positive, has_header, has_payload, has_work, read_size, take_payload,
}

-- One step: a size is read, or a message is cut off. The list is what is passed on.
pub data Move : Assembly → Assembly → List (List ℕ) → Type 0 where
  header :
      (buffer : List ℕ)
      → 4 ≤ length buffer
      → Move
          (record { size = 0; buffer = buffer })
          (record { size = of_le32 buffer; buffer = drop 4 buffer })
          []
  payload :
      (size : ℕ) (buffer : List ℕ)
      → 0 < size
      → size < 2 ^ 31
      → size ≤ length buffer
      → Move
          (record { size = size; buffer = buffer })
          (record { size = 0; buffer = drop size buffer })
          (take size buffer ∷ [])

-- Steps in a row.
pub data Moves : Assembly → Assembly → List (List ℕ) → Type 0 where
  rest : (a : Assembly) → Moves a a []
  move :
      (a b c : Assembly) (cut more : List (List ℕ))
      → Move a b cut
      → Moves b c more
      → Moves a c (cut ++ more)

-- No step applies.
abbrev pub Waits : Assembly → Type 0
Waits a = has_work a ≡ false

abbrev pub more_bytes : Assembly → List ℕ → Assembly
more_bytes a bytes = record a { buffer = a.buffer ++ bytes }

take_front : (n : ℕ) (xs ys : List ℕ) → n ≤ length xs → take n (xs ++ ys) ≡ take n xs
take_front zero xs ys h = refl
take_front (suc n) [] ys h = absurd (omega arith)
take_front (suc n) (x ∷ xs) ys h = ap (◌∷◌ x) (take_front n xs ys (omega arith))

drop_front : (n : ℕ) (xs ys : List ℕ) → n ≤ length xs → drop n (xs ++ ys) ≡ drop n xs ++ ys
drop_front zero xs ys h = refl
drop_front (suc n) [] ys h = absurd (omega arith)
drop_front (suc n) (x ∷ xs) ys h = drop_front n xs ys (omega arith)

of_le32_front : (xs ys : List ℕ) → 4 ≤ length xs → of_le32 (xs ++ ys) ≡ of_le32 xs
unfolding of_le32
of_le32_front [] ys h = absurd (omega arith)
of_le32_front (a ∷ []) ys h = absurd (omega arith)
of_le32_front (a ∷ b ∷ []) ys h = absurd (omega arith)
of_le32_front (a ∷ b ∷ c ∷ []) ys h = absurd (omega arith)
of_le32_front (a ∷ b ∷ c ∷ d ∷ xs) ys h = refl

-- A step does not look at what comes behind the bytes that it reads.
pub Move-more :
    (a b : Assembly) (cut : List (List ℕ)) (bytes : List ℕ)
    → Move a b cut
    → Move (more_bytes a bytes) (more_bytes b bytes) cut
Move-more _ _ _ bytes (header buffer h) =
    rw⁻¹ (of_le32_front buffer bytes h, drop_front 4 buffer bytes h)
      (header (buffer ++ bytes) (omega (arith, length-append buffer bytes)))
Move-more _ _ _ bytes (payload size buffer pos small fits) =
    rw⁻¹ (take_front size buffer bytes fits, drop_front size buffer bytes fits)
      (payload size (buffer ++ bytes) pos small (omega (arith, length-append buffer bytes)))

pub Moves-more :
    (a b : Assembly) (cut : List (List ℕ)) (bytes : List ℕ)
    → Moves a b cut
    → Moves (more_bytes a bytes) (more_bytes b bytes) cut
Moves-more _ _ _ bytes (rest a) = rest (more_bytes a bytes)
Moves-more _ _ _ bytes (move a b c cut more m ms) =
    move (more_bytes a bytes) (more_bytes b bytes) (more_bytes c bytes) cut more
      (Move-more a b cut bytes m) (Moves-more b c more bytes ms)

pub Moves-append :
    (a b c : Assembly) (front more : List (List ℕ))
    → Moves a b front
    → Moves b c more
    → Moves a c (front ++ more)
Moves-append _ _ c _ more (rest a) ms = ms
Moves-append _ _ c _ more (move a b b' cut front m ms') ms =
    rw (append_assoc cut front more)
      (move a b c cut (front ++ more) m (Moves-append b b' c front more ms' ms))

-- The body of the loop follows the steps that are left.
pub Moves-read_size :
    (a b : Assembly) (cut : List (List ℕ)) → Moves a b cut → Waits b → Moves (read_size a) b cut
unfolding read_size has_header has_work
Moves-read_size _ _ _ (rest a) w = elim (Bool-cases (has_header a)) [
  | inl works ↦ absurd (ground (arith, works, w))
  | inr idle ↦ rw (idle, read_size) (rest a)
]
Moves-read_size _ _ _ (move _ b c _ more (header buffer h) ms) w =
    rw (le→leb 4 (length buffer) h) ms
Moves-read_size _ _ _ (move _ b c _ more (payload size buffer pos small fits) ms) w =
    let not_zero : size ≢ 0 = omega arith in
    rw (ne→== size 0 not_zero) (move _ b c _ more (payload size buffer pos small fits) ms)

pub Moves-take_payload :
    (a b : Assembly) (cut : List (List ℕ))
    → Moves a b cut
    → Waits b
    → (more : List (List ℕ)) × Moves (take_payload a).0 b more × (cut ≡ (take_payload a).1 ++ more)
unfolding take_payload has_payload is_positive has_work
Moves-take_payload _ _ _ (rest a) w = elim (Bool-cases (has_payload a)) [
  | inl works ↦ absurd (ground (arith, works, w))
  | inr idle ↦ rw (idle, take_payload) ([], rest a, refl)
]
Moves-take_payload _ _ _ (move _ b c _ more (header buffer h) ms) w =
    (more, move _ b c _ more (header buffer h) ms, refl)
Moves-take_payload _ _ _ (move _ b c _ more (payload size buffer pos small fits) ms) w =
    rw (lt→ltb 0 size pos, lt→ltb size (2 ^ 31) small, le→leb size (length buffer) fits)
      (more, ms, refl)

pub Moves-waiting :
    (a b : Assembly) (cut : List (List ℕ)) → Moves a b cut → Waits a → (a ≡ b) × (cut ≡ [])
unfolding has_work has_header has_payload is_positive
Moves-waiting _ _ _ (rest a) w = (refl, refl)
Moves-waiting _ _ _ (move _ b c _ more (header buffer h) ms) w =
    absurd (ground (arith, le→leb 4 (length buffer) h, w))
Moves-waiting _ _ _ (move _ b c _ more (payload size buffer pos small fits) ms) w = absurd (
    ground
      (arith, lt→ltb 0 size pos, lt→ltb size (2 ^ 31) small, le→leb size (length buffer) fits, w))
