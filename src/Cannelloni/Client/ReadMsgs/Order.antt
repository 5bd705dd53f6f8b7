-- ===== src/Cannelloni/Client/ReadMsgs/Order.antt =====
-- What PassThruReadMsgs of j2534_OverIP/j2534cannelloniclient.cpp takes off a channel's queue.
use j2534_oip_wrapper.Prelude.{
  ℕ, zero, suc, ◌+◌, ◌≡◌, ◌≤◌, ◌<◌, refl, sym, ap, ◌∙◌, arith, List, [], ◌∷◌, ◌++◌, true, false,
  Bool-cases, inl, inr, ◌||◌, take-append-drop, some, length, take, drop, ltb, leb, lt→ltb, ◌==◌,
  if◌then◌else◌, length-take,
}
use j2534_oip_wrapper.Prelude.Assoc.{find, assign, find-assign_same}
use j2534_oip_wrapper.Message.{
  PassThruMsg, ok, fault, null_pointer, status_noerror, err_buffer_empty,
}
use j2534_oip_wrapper.Report.{Put}
use j2534_oip_wrapper.Cannelloni.Receive.{Channel}
use j2534_oip_wrapper.Cannelloni.Client.{Client, report}
use j2534_oip_wrapper.Cannelloni.Client.ReadMsgs.{
  pop_parsed_msg, read_now, read_until, read_queue, ReadDone, read_finish, pass_thru_read_msgs,
}

-- Without a timeout the loop takes the oldest `n` messages, or all.
read_now_lem : (n : ℕ) (queue : List PassThruMsg) → read_now n queue ≡ (take n queue, drop n queue)
unfolding read_now pop_parsed_msg
read_now_lem zero queue = refl
read_now_lem (suc n) [] = refl
read_now_lem (suc n) (m ∷ queue) = rw (read_now_lem n queue) refl

-- With one, it takes some of the oldest, at most `n`.
read_until_front :
    (timeout : ℕ) (elapsed : ℕ → ℕ) (i n : ℕ) (queue : List PassThruMsg)
    → let (read, rest) = read_until timeout elapsed i n queue in
      (read ++ rest ≡ queue) × (length read ≤ n)
unfolding read_until pop_parsed_msg
read_until_front timeout elapsed i zero queue = (refl, omega arith)
read_until_front timeout elapsed i (suc n) [] = elim (Bool-cases (leb timeout (elapsed i))) [
  | inl late ↦ rw (late, read_until) (refl, omega arith)
  | inr early ↦ rw (early, read_until) (refl, omega arith)
]
read_until_front timeout elapsed i (suc n) (m ∷ queue) =
    elim (Bool-cases (leb timeout (elapsed i))) [
      | inl late ↦ rw (late, read_until) (refl, omega arith)
      | inr early ↦
          let (front, bound) = read_until_front timeout elapsed (suc i) n queue in
          rw (early, read_until) (ap (◌∷◌ m) front, omega (arith, bound))
    ]

read_queue_front :
    (timeout : ℕ) (elapsed : ℕ → ℕ) (n : ℕ) (queue : List PassThruMsg)
    → let (read, rest) = read_queue timeout elapsed n queue in
      (read ++ rest ≡ queue) × (length read ≤ n)
unfolding read_queue
read_queue_front timeout elapsed n queue = elim (Bool-cases (timeout == 0)) [
  | inl now ↦
      rw (now, read_queue, read_now_lem n queue)
        (take-append-drop n queue, omega (arith, length-take n queue))
  | inr waits ↦ rw (waits, read_queue) (read_until_front timeout elapsed 0 n queue)
]

-- The branch of a known channel with a buffer.
reads :
    (c : Client) (id num timeout : ℕ) (elapsed : ℕ → ℕ) (ctx : Channel)
    → find id c.channels ≡ some ctx
    → (puts : List Put) × (pass_thru_read_msgs c id true num timeout elapsed
        ≡ ok (
            read_finish
              (record c {
                channels =
                    assign id
                      (record ctx { msg_queue = (read_queue timeout elapsed num ctx.msg_queue).1 })
                      c.channels;
              })
              puts
              (read_queue timeout elapsed num ctx.msg_queue).0))
unfolding pass_thru_read_msgs
reads c id num timeout elapsed ctx found = rw (found, pass_thru_read_msgs) (_, refl)

-- The count that is stored decides the test that it is stored before.
read_status :
    (n : ℕ) → (if ltb 0 n || n == 0 then status_noerror else err_buffer_empty) ≡ status_noerror
read_status n = ground arith

-- On an open channel PassThruReadMsgs with a buffer returns, and always with STATUS_NOERROR, also
-- when nothing was read; the messages that it returns and those that it leaves in the queue make up
-- the queue in its order, they are at most as many as asked for, and their number is written back.
pub read_in_order :
    (c : Client) (id num timeout : ℕ) (elapsed : ℕ → ℕ) (ctx : Channel)
    → find id c.channels ≡ some ctx
    → (d : ReadDone) × (rest : List PassThruMsg) × (pass_thru_read_msgs c id true num timeout
          elapsed
        ≡ ok d)
      × (find id d.client.channels ≡ some (record ctx { msg_queue = rest }))
      × (d.out ++ rest ≡ ctx.msg_queue)
      × (length d.out ≤ num)
      × (d.num_msgs ≡ length d.out)
      × (d.status ≡ status_noerror)
unfolding read_finish report
read_in_order c id num timeout elapsed ctx found =
    let (puts, e) = reads c id num timeout elapsed ctx found in
    let (front, bound) = read_queue_front timeout elapsed num ctx.msg_queue in
    (
      _,
      _,
      e,
      find-assign_same id _ c.channels,
      front,
      bound,
      refl,
      read_status (length (read_queue timeout elapsed num ctx.msg_queue).0),
    )

-- With no timeout PassThruReadMsgs returns the oldest messages of the queue, as many as were asked
-- for or all that there are, and leaves the others.
pub read_takes_oldest :
    (c : Client) (id num : ℕ) (elapsed : ℕ → ℕ) (ctx : Channel)
    → find id c.channels ≡ some ctx
    → (d : ReadDone) × (pass_thru_read_msgs c id true num 0 elapsed ≡ ok d)
      × (d.out ≡ take num ctx.msg_queue)
      × (find id d.client.channels ≡ some (record ctx { msg_queue = drop num ctx.msg_queue }))
unfolding read_finish report read_queue
read_takes_oldest c id num elapsed ctx found =
    let (puts, e) = reads c id num 0 elapsed ctx found in
    (
      _,
      e,
      ap (λ (p : List PassThruMsg × List PassThruMsg). p.0) (read_now_lem num ctx.msg_queue),
      find-assign_same id _ c.channels
          ∙ ap (λ (p : List PassThruMsg × List PassThruMsg). some (record ctx { msg_queue = p.1 }))
              (read_now_lem num ctx.msg_queue),
    )

take_none : (n : ℕ) → take {A = PassThruMsg} n [] ≡ []
take_none zero = refl
take_none (suc n) = refl

take-drop_append :
    (a b : ℕ) (xs : List PassThruMsg) → take a xs ++ take b (drop a xs) ≡ take (a + b) xs
take-drop_append zero b xs = let e : b ≡ 0 + b = omega arith in ap (λ n. take n xs) e
take-drop_append (suc a) b [] = take_none b ∙ sym (take_none (suc a + b))
take-drop_append (suc a) b (x ∷ xs) =
    let e : suc a + b ≡ suc (a + b) = omega arith in
    ap (◌∷◌ x) (take-drop_append a b xs) ∙ ap (λ n. take n (x ∷ xs)) (sym e)

-- On an open channel with a buffer and no timeout, reading `a` messages and then `b` ends, and gives
-- the messages that reading `a + b` at once gives.
pub read_in_parts :
    (c : Client) (id a b : ℕ) (elapsed : ℕ → ℕ) (ctx : Channel)
    → find id c.channels ≡ some ctx
    → (d d' whole : ReadDone) × (pass_thru_read_msgs c id true a 0 elapsed ≡ ok d)
      × (pass_thru_read_msgs d.client id true b 0 elapsed ≡ ok d')
      × (pass_thru_read_msgs c id true (a + b) 0 elapsed ≡ ok whole)
      × (d.out ++ d'.out ≡ whole.out)
read_in_parts c id a b elapsed ctx found =
    let (d, e, out, left) = read_takes_oldest c id a elapsed ctx found in
    let (d', e', out', left') = read_takes_oldest d.client id b elapsed _ left in
    let (whole, e'', out'', left'') = read_takes_oldest c id (a + b) elapsed ctx found in
    let parts = take-drop_append a b ctx.msg_queue in (d, d', whole, e, e', e'', cc)

-- With no timeout, no buffer, a message asked for and a message queued, PassThruReadMsgs reads
-- through the null `pMsg`.
pub read_null_buffer :
    (c : Client) (id num : ℕ) (elapsed : ℕ → ℕ) (ctx : Channel)
    → find id c.channels ≡ some ctx
    → 0 < num
    → 0 < length ctx.msg_queue
    → pass_thru_read_msgs c id false num 0 elapsed ≡ fault null_pointer
unfolding pass_thru_read_msgs read_queue
read_null_buffer c id num elapsed ctx found some_asked some_queued = rw (
  found,
  pass_thru_read_msgs,
  read_now_lem num ctx.msg_queue,
  lt→ltb 0 (length (take num ctx.msg_queue)) (omega (arith, length-take num ctx.msg_queue)),
)
