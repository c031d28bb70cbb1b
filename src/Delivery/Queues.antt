-- ===== src/Delivery/Queues.antt =====
-- What the queues of a client satisfy between the operations of Pulsar/src/LocalClientsManager.cpp and
-- Pulsar/src/ConnectionsManager.cpp.
use pulsar_server_framework.Prelude.{
  ℕ, ◌+◌, ◌/◌, ◌≤◌, ◌<◌, ◌≡◌, ◌⊎◌, refl, sym, ap, ◌∙◌, inl, inr, List, [], ◌∷◌, ◌++◌, Bool, true,
  false, ◌||◌, length, All, arith, Bool-cases, length-append,
}
use pulsar_server_framework.Client.{Client}
use pulsar_server_framework.Protocol.Response.{Response}
use pulsar_server_framework.Delivery.{locked_queue, unlocked_queue, not_empty}
use pulsar_server_framework.Delivery.Callback.{IsSendable}
use pulsar_server_framework.Delivery.Rounds.{
  locked_set, unlocked_set, IsRound, IsSending, IsFailed, All-taken,
}

-- One of the two queues: bounded, of responses that can be sent; a client in the set has responses
-- there; responses that wait are announced by the set, or by a write that has not ended.
pub record IsQueue (max_pending : ℕ) (queue : List Response) (listed : Bool) (sending : ℕ)
    : Type 0 where
  pub bounded : length queue ≤ max_pending / 2
  pub sendable : All IsSendable queue
  pub has_work : listed ≡ true → 0 < length queue
  pub announced : 0 < length queue → (listed ≡ true) ⊎ (0 < sending)

pub record IsDelivering (max_pending : ℕ) (c : Client) : Type 0 where
  pub counted :
      c.responses
      ≡ length c.responses_queue1 + length c.responses_queue2 + length c.responses_being_sent
  pub sending : All IsSendable c.responses_being_sent
  pub queue1 : IsQueue max_pending c.responses_queue1 c.in_set1 (length c.responses_being_sent)
  pub queue2 : IsQueue max_pending c.responses_queue2 c.in_set2 (length c.responses_being_sent)

-- The same, by the direction flag.
pub record IsDeliveringBy (max_pending : ℕ) (flag : Bool) (c : Client) : Type 0 where
  pub counted :
      c.responses
      ≡ length (locked_queue flag c)
        + length (unlocked_queue flag c)
        + length c.responses_being_sent
  pub sending : All IsSendable c.responses_being_sent
  pub locked :
      IsQueue max_pending (locked_queue flag c) (locked_set flag c) (length c.responses_being_sent)
  pub unlocked :
      IsQueue max_pending
        (unlocked_queue flag c)
        (unlocked_set flag c)
        (length c.responses_being_sent)

pub by_flag :
    (max_pending : ℕ) (flag : Bool) (c : Client)
    → IsDelivering max_pending c
    → IsDeliveringBy max_pending flag c
by_flag max_pending true c p = record {
  counted = p.counted;
  sending = p.sending;
  locked = p.queue1;
  unlocked = p.queue2;
}
by_flag max_pending false c p = record {
  counted = omega (arith, p.counted);
  sending = p.sending;
  locked = p.queue2;
  unlocked = p.queue1;
}

pub of_flag :
    (max_pending : ℕ) (flag : Bool) (c : Client)
    → IsDeliveringBy max_pending flag c
    → IsDelivering max_pending c
of_flag max_pending true c p = record {
  counted = p.counted;
  sending = p.sending;
  queue1 = p.locked;
  queue2 = p.unlocked;
}
of_flag max_pending false c p = record {
  counted = omega (arith, p.counted);
  sending = p.sending;
  queue1 = p.unlocked;
  queue2 = p.locked;
}

pub All-append :
    (xs ys : List Response) → All IsSendable xs → All IsSendable ys → All IsSendable (xs ++ ys)
All-append [] ys v w = w
All-append (x ∷ xs) ys (v, vs) w = (v, All-append xs ys vs w)

pub not_empty-pos : (xs : List Response) → not_empty xs ≡ true → 0 < length xs
unfolding not_empty
not_empty-pos [] e = ground arith
not_empty-pos (x ∷ xs) e = omega arith

pub pos-not_empty : (xs : List Response) → 0 < length xs → not_empty xs ≡ true
unfolding not_empty
pos-not_empty [] h = absurd (omega arith)
pos-not_empty (x ∷ xs) h = refl

-- Responses wait in the queue that was sent from, and nothing will send them.
pub record IsStranded (flag : Bool) (c : Client) : Type 0 where
  pub waiting : 0 < length (unlocked_queue flag c)
  pub unset : unlocked_set flag c ≡ false
  pub no_write : c.responses_being_sent ≡ []

pub relisted :
    (max_pending m n : ℕ) (q : List Response) (listed : Bool)
    → IsQueue max_pending q listed m
    → IsQueue max_pending q (listed || not_empty q) n
relisted max_pending m n q listed p = record {
  bounded = p.bounded;
  sendable = p.sendable;
  has_work = λ e. elim (Bool-cases listed) [
    | inl l ↦ p.has_work l
    | inr l ↦ not_empty-pos q (sym (rw l refl) ∙ e)
  ];
  announced = λ h. inl (rw (pos-not_empty q h) (ground arith));
}

pub while_sending :
    (max_pending n m : ℕ) (q : List Response) (listed : Bool)
    → 0 < m
    → IsQueue max_pending q listed n
    → IsQueue max_pending q listed m
while_sending max_pending n m q listed pos p = record {
  bounded = p.bounded;
  sendable = p.sendable;
  has_work = p.has_work;
  announced = λ h. inr pos;
}

left-IsQueue :
    (max_pending n m : ℕ) (taken left : List Response) (listed : Bool)
    → (0 < length left → 0 < m)
    → IsQueue max_pending (taken ++ left) listed n
    → IsQueue max_pending left false m
left-IsQueue max_pending n m taken left listed pos p = record {
  bounded = omega (arith, p.bounded, length-append taken left);
  sendable = (All-taken taken left p.sendable).1;
  has_work = λ e. ground arith;
  announced = λ h. inr (pos h);
}

pub IsQueue-at :
    (max_pending : ℕ) {q q' : List Response} {l l' : Bool} {n n' : ℕ}
    → q' ≡ q
    → l' ≡ l
    → n' ≡ n
    → IsQueue max_pending q l n
    → IsQueue max_pending q' l' n'
IsQueue-at max_pending e f g p = rw (e, f, g) p

sent-IsDelivering :
    (max_pending : ℕ) (flag uv_write_ok : Bool) (c d : Client) (taken left : List Response)
    → IsDeliveringBy max_pending flag c
    → c.responses_being_sent ≡ []
    → IsRound flag uv_write_ok c d taken left
    → IsSending flag c d taken
    → IsDeliveringBy max_pending flag d
sent-IsDelivering max_pending flag uv_write_ok c d taken left p none_sent r s =
    let n = ap length s.sending in
    let k = IsQueue-at max_pending r.in_order refl refl p.unlocked in
    record {
      counted = omega (
        arith,
        p.counted,
        s.pending,
        n,
        r.not_more,
        ap length r.rest,
        ap length r.other,
        ap length none_sent,
      );
      sending = rw s.sending ((All-taken taken left k.sendable).0);
      locked = IsQueue-at max_pending r.other s.set n (
          while_sending max_pending (length c.responses_being_sent) (length taken)
            (locked_queue flag c) (locked_set flag c) r.some_taken p.locked);
      unlocked = IsQueue-at max_pending r.rest r.unset n (
          left-IsQueue max_pending (length c.responses_being_sent) (length taken) taken left
            (unlocked_set flag c) (λ h. r.some_taken) k);
    }

failed-IsDelivering :
    (max_pending : ℕ) (flag uv_write_ok : Bool) (c d : Client) (taken left : List Response)
    → IsDeliveringBy max_pending flag c
    → c.responses_being_sent ≡ []
    → IsRound flag uv_write_ok c d taken left
    → IsFailed flag c d taken
    → left ≡ []
    → IsDeliveringBy max_pending flag d
failed-IsDelivering max_pending flag uv_write_ok c d taken left p none_sent r s all_taken =
    let n = ap length s.sending in
    let k = IsQueue-at max_pending r.in_order refl refl p.unlocked in
    record {
      counted = omega (
        arith,
        p.counted,
        s.pending,
        n,
        r.not_more,
        ap length r.rest,
        ap length r.other,
        ap length none_sent,
        ap length all_taken,
      );
      sending = rw s.sending tt;
      locked = IsQueue-at max_pending r.other s.set n (
          relisted max_pending (length c.responses_being_sent) 0 (locked_queue flag c)
            (locked_set flag c) p.locked);
      unlocked = IsQueue-at max_pending r.rest r.unset n (
          left-IsQueue max_pending (length c.responses_being_sent) 0 taken left
            (unlocked_set flag c) (λ h. absurd (omega (arith, ap length all_taken))) k);
    }

pub round-IsDelivering :
    (max_pending : ℕ) (flag uv_write_ok : Bool) (c d : Client) (taken left : List Response)
    → IsDeliveringBy max_pending flag c
    → c.responses_being_sent ≡ []
    → IsRound flag uv_write_ok c d taken left
    → IsDeliveringBy max_pending flag d ⊎ ((uv_write_ok ≡ false) × IsStranded flag d)
round-IsDelivering max_pending flag uv_write_ok c d taken [] p none_sent r = inl (elim r.outcome [
  | inl (_, s) ↦ sent-IsDelivering max_pending flag uv_write_ok c d taken [] p none_sent r s
  | inr (_, s) ↦ failed-IsDelivering max_pending flag uv_write_ok c d taken [] p none_sent r s refl
])
round-IsDelivering max_pending flag uv_write_ok c d taken (x ∷ left) p none_sent r =
    elim r.outcome [
      | inl (_, s) ↦
          inl (sent-IsDelivering max_pending flag uv_write_ok c d taken (x ∷ left) p none_sent r s)
      | inr (why, s) ↦ elim why [
        | inl fails ↦ inr (
          fails,
          record {
            waiting = omega (arith, ap length r.rest);
            unset = r.unset;
            no_write = s.sending;
          },
        )
        | inr e ↦ absurd (omega (arith, ap length e))
      ]
    ]
