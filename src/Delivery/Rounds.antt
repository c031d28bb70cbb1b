-- ===== src/Delivery/Rounds.antt =====
-- A round of `SendLocalClientsResponses` for one client, Pulsar/src/LocalClientsManager.cpp: what it
-- sends and what it leaves.
use pulsar_server_framework.Prelude.{
  ℕ, ◌+◌, ◌≤◌, ◌<◌, ◌≡◌, ◌⊎◌, refl, ap, ◌∙◌, inl, inr, subst, List, [], ◌∷◌, ◌++◌, some, Bool, true,
  false, ◌||◌, if◌then◌else◌, length, All, arith, Bool-cases,
}
use pulsar_server_framework.Client.{Client, Server}
use pulsar_server_framework.Protocol.Response.{
  Response, is_fatal_error_for_locally_connected_client,
}
use pulsar_server_framework.Delivery.{
  locked_queue, unlocked_queue, Filled, fill, mark_if_fatal, not_empty, after_send_responses,
  erased, set_unlocked_queue, write, fill_and_write, written,
}
use pulsar_server_framework.Delivery.Callback.{
  IsFilled, fill-IsFilled, IsSendable, IsCalledBack, SameDelivery, mark-SameDelivery,
  after_each-IsCalledBack, pos_test,
}

abbrev pub locked_set : Bool → Client → Bool
locked_set flag c = if flag then c.in_set1 else c.in_set2

abbrev pub unlocked_set : Bool → Client → Bool
unlocked_set flag c = if flag then c.in_set2 else c.in_set1

-- The responses that were taken are being sent.
pub record IsSending (flag : Bool) (c d : Client) (taken : List Response) : Type 0 where
  pub sending : d.responses_being_sent ≡ taken
  pub pending : d.responses ≡ c.responses
  pub set : locked_set flag d ≡ locked_set flag c

-- The write failed or was not tried: the responses that were taken are done with.
pub record IsFailed (flag : Bool) (c d : Client) (taken : List Response) : Type 0 where
  pub sending : d.responses_being_sent ≡ []
  pub pending : d.responses + length taken ≡ c.responses
  pub set : locked_set flag d ≡ (locked_set flag c || not_empty (locked_queue flag c))

-- A round splits the queue that it sends from, in order, into what it takes and what it leaves.
pub record IsRound (flag uv_write_ok : Bool) (c d : Client) (taken left : List Response)
    : Type 0 where
  pub in_order : taken ++ left ≡ unlocked_queue flag c
  pub some_taken : 0 < length taken
  pub not_more : length taken + length left ≡ length (unlocked_queue flag c)
  pub rest : unlocked_queue flag d ≡ left
  pub other : locked_queue flag d ≡ locked_queue flag c
  pub unset : unlocked_set flag d ≡ false
  pub outcome :
      ((uv_write_ok ≡ true) × IsSending flag c d taken)
      ⊎ (((uv_write_ok ≡ false) ⊎ (left ≡ [])) × IsFailed flag c d taken)

mark_if_fatal-SameDelivery :
    (s : Server) (c : Client) (queue : List Response) → SameDelivery c (mark_if_fatal s c queue).1
unfolding mark_if_fatal
mark_if_fatal-SameDelivery s c [] = ground arith
mark_if_fatal-SameDelivery s c (r ∷ queue) =
    elim (Bool-cases (is_fatal_error_for_locally_connected_client r)) [
      | inl fatal ↦ simp fatal (mark-SameDelivery true s c)
      | inr plain ↦ simp plain (ground arith)
    ]

-- The client as it is handed to uv_write.
abbrev filled_client : Bool → Filled → Client → Client
filled_client flag f c =
    set_unlocked_queue flag f.left (record c { responses_being_sent = f.taken })

write_sent :
    (now : ℕ) (s : Server) (c : Client)
    → c.to_be_disconnected ≡ false
    → (s' : Server) × (write true now s c ≡ some (s', c))
unfolding write
write_sent now s c h =
    let t = s.stat in
    (
      record s {
        stat = record t {
          responses_being_sent_count = t.responses_being_sent_count + length c.responses_being_sent;
        };
      },
      simp h,
    )

write_failed :
    (uv_write_ok : Bool) (now : ℕ) (s : Server) (c : Client)
    → (uv_write_ok ≡ false) ⊎ (c.to_be_disconnected ≡ true)
    → write uv_write_ok now s c ≡ after_send_responses true false now s c
unfolding write
write_failed uv_write_ok now s c (inl h) = ground arith
write_failed uv_write_ok now s c (inr h) = ground arith

callback_run :
    (write_ok : Bool) (now : ℕ) (s : Server) (c : Client)
    → All IsSendable c.responses_being_sent
    → 0 < length c.responses_being_sent
    → length c.responses_being_sent ≤ c.responses
    → (s' : Server) × (c' : Client) × (after_send_responses true write_ok now s c
        ≡ some (s', record c' { responses_being_sent = [] }))
      × IsCalledBack (length c.responses_being_sent) c c'
unfolding after_send_responses written
callback_run write_ok now s c v pos h =
    let (s', c', e, a) = after_each-IsCalledBack write_ok now c.responses_being_sent s c v h in
    (s', c', simp (e, pos_test (length c.responses_being_sent) pos), a)

pub All-taken :
    (xs ys : List Response) → All IsSendable (xs ++ ys) → All IsSendable xs × All IsSendable ys
All-taken [] ys v = (tt, v)
All-taken (x ∷ xs) ys (v, vs) = let (p, q) = All-taken xs ys vs in ((v, p), q)

sent-IsRound :
    (flag marked : Bool) (f : Filled) (c c1 : Client)
    → SameDelivery c c1
    → IsFilled marked 0 (unlocked_queue flag c) f
    → 0 < length (unlocked_queue flag c)
    → IsRound flag true c (erased flag (filled_client flag f c1)) f.taken f.left
unfolding erased set_unlocked_queue
sent-IsRound true marked f c c1 p q pos = record {
  in_order = q.in_order;
  some_taken = q.some_taken refl pos;
  not_more = q.not_more;
  rest = refl;
  other = p.queues.queue1;
  unset = refl;
  outcome = inl (refl, record { sending = refl; pending = p.responses; set = p.set1 });
}
sent-IsRound false marked f c c1 p q pos = record {
  in_order = q.in_order;
  some_taken = q.some_taken refl pos;
  not_more = q.not_more;
  rest = refl;
  other = p.queues.queue2;
  unset = refl;
  outcome = inl (refl, record { sending = refl; pending = p.responses; set = p.set2 });
}

failed-IsRound :
    (flag marked uv_write_ok : Bool) (f : Filled) (c c1 d : Client)
    → SameDelivery c c1
    → IsFilled marked 0 (unlocked_queue flag c) f
    → 0 < length (unlocked_queue flag c)
    → (uv_write_ok ≡ false) ⊎ (marked ≡ true)
    → IsCalledBack (length f.taken) (filled_client flag f c1) d
    → IsRound flag uv_write_ok c
        (erased flag (record d { responses_being_sent = [] }))
        f.taken
        f.left
unfolding erased set_unlocked_queue
failed-IsRound true marked uv_write_ok f c c1 d p q pos h a = record {
  in_order = q.in_order;
  some_taken = q.some_taken refl pos;
  not_more = q.not_more;
  rest = a.queues.queue2;
  other = a.queues.queue1 ∙ p.queues.queue1;
  unset = refl;
  outcome = inr (
    elim h [ inl e ↦ inl e | inr e ↦ inr (q.all_if_marked e) ],
    record {
      sending = refl;
      pending = a.responses ∙ p.responses;
      set = rw (a.set1 (q.some_taken refl pos), p.set1, p.queues.queue1) refl;
    },
  );
}
failed-IsRound false marked uv_write_ok f c c1 d p q pos h a = record {
  in_order = q.in_order;
  some_taken = q.some_taken refl pos;
  not_more = q.not_more;
  rest = a.queues.queue1;
  other = a.queues.queue2 ∙ p.queues.queue2;
  unset = refl;
  outcome = inr (
    elim h [ inl e ↦ inl e | inr e ↦ inr (q.all_if_marked e) ],
    record {
      sending = refl;
      pending = a.responses ∙ p.responses;
      set = rw (a.set2 (q.some_taken refl pos), p.set2, p.queues.queue2) refl;
    },
  );
}

fill_and_write_run :
    (flag uv_write_ok : Bool) (now : ℕ) (s : Server) (c : Client) (s3 : Server) (c3 : Client)
    → (let (s1, c1) = mark_if_fatal s c (unlocked_queue flag c) in
        write uv_write_ok now s1
          (filled_client flag (fill c1.to_be_disconnected 0 (unlocked_queue flag c)) c1))
      ≡ some (s3, c3)
    → fill_and_write flag uv_write_ok now s c ≡ some (s3, erased flag c3)
unfolding fill_and_write
fill_and_write_run flag uv_write_ok now s c s3 c3 e = rw e refl

sendable_taken :
    (flag marked : Bool) (f : Filled) (c : Client)
    → IsFilled marked 0 (unlocked_queue flag c) f
    → All IsSendable (unlocked_queue flag c)
    → All IsSendable f.taken
sendable_taken flag marked f c q v = (All-taken f.taken f.left (rw q.in_order v)).0

record IsFilledClient (f : Filled) (c d : Client) : Type 0 where
  being_sent : d.responses_being_sent ≡ f.taken
  pending : d.responses ≡ c.responses
  marked : d.to_be_disconnected ≡ c.to_be_disconnected

filled_client-IsFilledClient :
    (flag : Bool) (f : Filled) (c : Client) → IsFilledClient f c (filled_client flag f c)
unfolding set_unlocked_queue
filled_client-IsFilledClient true f c = record { being_sent = refl; pending = refl; marked = refl }
filled_client-IsFilledClient false f c = record { being_sent = refl; pending = refl; marked = refl }

-- The immediate call of the callback, for the client as it is handed to uv_write.
failed_callback :
    (flag : Bool) (now : ℕ) (s : Server) (f : Filled) (c : Client)
    → All IsSendable f.taken
    → 0 < length f.taken
    → length f.taken ≤ c.responses
    → (s' : Server) × (d : Client) × (after_send_responses true false now s (filled_client flag f c)
        ≡ some (s', record d { responses_being_sent = [] }))
      × IsCalledBack (length f.taken) (filled_client flag f c) d
failed_callback flag now s f c v pos h =
    let c2 = filled_client flag f c in
    let k = filled_client-IsFilledClient flag f c in
    let n = ap length k.being_sent in
    let (s', d, e, a) =
      callback_run false now s c2 (rw k.being_sent v) (omega (arith, n))
        (omega (arith, n, k.pending)) in
    (s', d, e, subst (λ m. IsCalledBack m c2 d) n a)

outcome_cases :
    (ok marked : Bool) → ((ok ≡ true) × (marked ≡ false)) ⊎ ((ok ≡ false) ⊎ (marked ≡ true))
outcome_cases ok true = inr (inr refl)
outcome_cases true false = inl (refl, refl)
outcome_cases false false = inr (inl refl)

-- What a round takes and what it leaves.
abbrev pub filling : Bool → Server → Client → Filled
filling flag s c =
    let queue = unlocked_queue flag c in fill (mark_if_fatal s c queue).1.to_be_disconnected 0 queue

-- For a client whose queue has responses, all of which can be sent and are counted, the round ends
-- without a failed assertion. What it takes and what it leaves are the queue, in order, and it takes at
-- least one response; the other queue stays, and the client leaves the set. Either the write was accepted
-- and the responses taken are being sent, or it failed or nothing is left, and they are done with.
pub fill_and_write-IsRound :
    (flag uv_write_ok : Bool) (now : ℕ) (s : Server) (c : Client)
    → 0 < length (unlocked_queue flag c)
    → All IsSendable (unlocked_queue flag c)
    → length (unlocked_queue flag c) ≤ c.responses
    → (s' : Server) × (c' : Client) × (fill_and_write flag uv_write_ok now s c ≡ some (s', c'))
      × IsRound flag uv_write_ok c c' (filling flag s c).taken (filling flag s c).left
fill_and_write-IsRound flag uv_write_ok now s c pos v h =
    let queue = unlocked_queue flag c in
    let m = mark_if_fatal s c queue in
    let marked = m.1.to_be_disconnected in
    let f = fill marked 0 queue in
    let p = mark_if_fatal-SameDelivery s c queue in
    let q = fill-IsFilled marked 0 queue in
    let c2 = filled_client flag f m.1 in
    let k = filled_client-IsFilledClient flag f m.1 in
    elim (outcome_cases uv_write_ok marked) [
      | inl (ok, unmarked) ↦
          let (s3, e) = write_sent now m.0 c2 (k.marked ∙ unmarked) in
          (
            s3,
            erased flag c2,
            fill_and_write_run flag uv_write_ok now s c s3 c2 (rw ok e),
            rw ok (sent-IsRound flag marked f c m.1 p q pos),
          )
      | inr fails ↦
          let (s3, d, e, a) =
            failed_callback flag now m.0 f m.1 (sendable_taken flag marked f c q v)
              (q.some_taken refl pos) (omega (arith, q.not_more, p.responses)) in
          let c3 : Client = record d { responses_being_sent = [] } in
          (
            s3,
            erased flag c3,
            fill_and_write_run flag uv_write_ok now s c s3 c3
                (write_failed uv_write_ok now m.0 c2 (rw k.marked fails) ∙ e),
            failed-IsRound flag marked uv_write_ok f c m.1 d p q pos fails a,
          )
    ]
