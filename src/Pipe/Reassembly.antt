-- ===== src/Pipe/Reassembly.antt =====
-- The reassembly of ExPipeServer::processData (j2534_OverIP_App/expipeserver.cpp): that its loop
-- ends, and that the cutting of the stream into chunks does not matter.
use j2534_oip_wrapper.Prelude.{
  ℕ, zero, suc, ◌≡◌, ◌≤◌, ◌<◌, refl, sym, subst, ◌∙◌, arith, List, [], ◌∷◌, ◌++◌, append-nil,
  append_assoc, true, Bool-cases, inl, inr, Option, some, length, drop, length-drop,
}
use j2534_oip_wrapper.Prelude.Bytes.{of_le32}
use j2534_oip_wrapper.Pipe.{
  Assembly, is_positive, has_header, has_payload, has_work, read_size, take_payload, assemble, feed,
  feeds,
}
use j2534_oip_wrapper.Pipe.Steps.{
  Move, header, payload, Moves, rest, move, Waits, more_bytes, Moves-more, Moves-append,
  Moves-read_size, Moves-take_payload, Moves-waiting,
}

take_shrinks :
    (a : Assembly)
    → (length (take_payload a).0.buffer ≤ length a.buffer)
      × (has_payload a ≡ true → length (take_payload a).0.buffer < length a.buffer)
unfolding take_payload has_payload is_positive
take_shrinks a = elim (Bool-cases (has_payload a)) [
  | inl works ↦
      rw (works, take_payload)
        (
          omega (arith, length-drop a.size a.buffer),
          λ e. ground (arith, works, length-drop a.size a.buffer),
        )
  | inr idle ↦ rw (idle, take_payload) (omega arith, λ e. ground (arith, idle, e))
]

read_shrinks : (a : Assembly) → has_header a ≡ true → length (read_size a).buffer < length a.buffer
unfolding read_size has_header
read_shrinks a h = rw (h, read_size) (ground (arith, h, length-drop 4 a.buffer))

-- A round with work to do takes bytes off the buffer.
round_shrinks :
    (a : Assembly)
    → has_work a ≡ true
    → length (take_payload (read_size a)).0.buffer < length a.buffer
unfolding has_work read_size
round_shrinks a h = elim (Bool-cases (has_header a)) [
  | inl reads ↦ omega (arith, (take_shrinks (read_size a)).0, read_shrinks a reads)
  | inr idle ↦
      let cuts : has_payload a ≡ true = rw idle at h in
      rw (idle, read_size) ((take_shrinks a).1 cuts)
]

-- The loop follows the steps to the end, with fuel for each byte of the buffer and one round more.
Moves-assemble :
    (fuel : ℕ) (a b : Assembly) (cut : List (List ℕ))
    → length a.buffer < fuel
    → Moves a b cut
    → Waits b
    → assemble fuel a ≡ some (b, cut)
unfolding assemble
Moves-assemble zero a b cut h ms w = absurd (omega arith)
Moves-assemble (suc fuel) a b cut h ms w = elim (Bool-cases (has_work a)) [
  | inr idle ↦ let (same, none_cut) = Moves-waiting a b cut ms idle in rw (idle, assemble) (cc)
  | inl works ↦
      let (more, left, parts) =
        Moves-take_payload (read_size a) b cut (Moves-read_size a b cut ms w) w in
      rw
        (
          works,
          assemble,
          Moves-assemble fuel (take_payload (read_size a)).0 b more
              (omega (arith, round_shrinks a works, h)) left w,
        )
        (cc)
]

Move-read_size : (a : Assembly) → has_header a ≡ true → Move a (read_size a) []
unfolding read_size has_header
Move-read_size a h =
    let zero_size : a.size ≡ 0 = ground (arith, h) in
    let long : 4 ≤ length a.buffer = ground (arith, h) in
    rw (h, read_size)
      (subst
        (λ t.
          Move (record { size = t; buffer = a.buffer })
            (record { size = of_le32 a.buffer; buffer = drop 4 a.buffer }) [])
        (sym zero_size) (header a.buffer long))

Move-take_payload :
    (a : Assembly) → has_payload a ≡ true → Move a (take_payload a).0 (take_payload a).1
unfolding take_payload has_payload is_positive
Move-take_payload a h =
    rw (h, take_payload)
      (payload a.size a.buffer (ground (arith, h)) (ground (arith, h)) (ground (arith, h)))

-- Steps from every state end in one in which no step applies.
ends :
    (fuel : ℕ) (a : Assembly)
    → length a.buffer < fuel
    → (b : Assembly) × (cut : List (List ℕ)) × Moves a b cut × Waits b
unfolding has_work
ends zero a h = absurd (omega arith)
ends (suc fuel) a h = elim (Bool-cases (has_header a)) [
  | inl reads ↦
      let (b, cut, ms, w) = ends fuel (read_size a) (omega (arith, read_shrinks a reads, h)) in
      (b, cut, move a (read_size a) b [] cut (Move-read_size a reads) ms, w)
  | inr no_size ↦ elim (Bool-cases (has_payload a)) [
    | inl cuts ↦
        let (b, cut, ms, w) =
          ends fuel (take_payload a).0 (omega (arith, (take_shrinks a).1 cuts, h)) in
        (b, _, move a (take_payload a).0 b (take_payload a).1 cut (Move-take_payload a cuts) ms, w)
    | inr idle ↦ (a, [], rest a, rw (no_size, idle) refl)
  ]
]

-- A chunk is always taken in: its reassembly ends in a state with no step left.
feed_ends :
    (a : Assembly) (chunk : List ℕ)
    → (b : Assembly) × (cut : List (List ℕ)) × (feed a chunk ≡ some (b, cut))
      × Moves (more_bytes a chunk) b cut
      × Waits b
unfolding feed
feed_ends a chunk =
    let (b, cut, ms, w) =
      ends (suc (length (a.buffer ++ chunk))) (more_bytes a chunk) (omega arith) in
    (b, cut, Moves-assemble _ (more_bytes a chunk) b cut (omega arith) ms w, ms, w)

-- All bytes of the chunks.
abbrev pub stream : List (List ℕ) → List ℕ
stream [] = []
stream (chunk ∷ chunks) = chunk ++ stream chunks

-- The end of the steps from a state is one.
ends_once :
    (a b c : Assembly) (cut more : List (List ℕ))
    → Moves a b cut
    → Waits b
    → Moves a c more
    → Waits c
    → ◌≡◌ {A = Option (Assembly × List (List ℕ))} (some (b, cut)) (some (c, more))
ends_once a b c cut more ms w ms' w' =
    sym (Moves-assemble (suc (length a.buffer)) a b cut (omega arith) ms w)
    ∙ Moves-assemble (suc (length a.buffer)) a c more (omega arith) ms' w'

feeds_two :
    (a a' b : Assembly) (chunk : List ℕ) (chunks front more : List (List ℕ))
    → feed a chunk ≡ some (a', front)
    → feeds a' chunks ≡ some (b, more)
    → feeds a (chunk ∷ chunks) ≡ some (b, front ++ more)
unfolding feeds
feeds_two a a' b chunk chunks front more e e' = rw (e, feeds, e') refl

pub feeds_follow :
    (a b : Assembly) (chunks cut : List (List ℕ))
    → Waits a
    → Moves (more_bytes a (stream chunks)) b cut
    → Waits b
    → feeds a chunks ≡ some (b, cut)
unfolding feeds
feeds_follow a b [] cut wa ms wb =
    let (same, none_cut) = Moves-waiting a b cut (rw (append-nil a.buffer) at ms) wa in cc
feeds_follow a b (chunk ∷ chunks) cut wa ms wb =
    let (a', front, e, first, wa') = feed_ends a chunk in
    let (b', more, second, wb') =
      ends (suc (length (a'.buffer ++ stream chunks))) (more_bytes a' (stream chunks))
        (omega arith) in
    let onward = Moves-more (more_bytes a chunk) a' front (stream chunks) first in
    let whole =
      Moves-append (more_bytes (more_bytes a chunk) (stream chunks)) (more_bytes a' (stream chunks))
        b' front more onward second in
    let same =
      ends_once (more_bytes a (chunk ++ stream chunks)) b' b (front ++ more) cut
        (rw (append_assoc a.buffer chunk (stream chunks)) at whole) wb' ms wb in
    feeds_two a a' b' chunk chunks front more e (feeds_follow a' b' chunks more wa' second wb')
    ∙ same

-- However the stream is cut into chunks: on a connection that waits for bytes, the chunks one after
-- the other pass on the same messages and leave the same state as all their bytes in one chunk, and
-- taking them in always ends.
pub chunks_do_not_matter :
    (a : Assembly) (chunks : List (List ℕ))
    → Waits a
    → (b : Assembly) × (cut : List (List ℕ)) × (feeds a chunks ≡ some (b, cut))
      × (feed a (stream chunks) ≡ some (b, cut))
chunks_do_not_matter a chunks w =
    let (b, cut, e, ms, w') = feed_ends a (stream chunks) in
    (b, cut, feeds_follow a b chunks cut w ms w', e)
