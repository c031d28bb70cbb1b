-- ===== src/Manager/References.antt =====
-- The life of a response by its reference count: Pulsar/src/ConnectionsManager.cpp.
use pulsar_server_framework.Prelude.{
  ℕ, zero, suc, ◌+◌, ◌-◌, ◌<◌, ◌≡◌, refl, inl, inr, some, true, false, ◌==◌, length, arith,
  Bool-cases, subst, Option, ◌>>=◌,
}
use pulsar_server_framework.Protocol.Response.{Response}
use pulsar_server_framework.Manager.{
  QueueStat, ResponseObject, response_object, count_queued, add_response_details_to_server_stat,
  set_references, count_unqueued, count_reference, count_references, get_responses_in_queue,
}

-- A response with references, and the callbacks of some of them made.
abbrev pub counted_object : Response → ℕ → ℕ → ResponseObject
counted_object r n i = record {
  response = r;
  reference_count = n;
  response_sent_count = i;
  added_to_stat = true;
  deleted = false;
}

not_zero : (n : ℕ) → 0 < n → (n == 0) ≡ false
not_zero n pos = ground arith

same_number : (a b : ℕ) → a ≡ b → (a == b) ≡ true
same_number a b e = ground arith

add_sub : (a b : ℕ) → a + b - b ≡ a
add_sub a b = omega arith

module _ (size_of_response : ℕ) (r : Response) (t : QueueStat) where
  abbrev counted_stat : QueueStat
  counted_stat = count_queued size_of_response (response_object r) t

  set_references-some :
      (n : ℕ)
      → 0 < n
      → set_references size_of_response n (response_object r) t
        ≡ some (counted_stat, counted_object r n 0)
  unfolding set_references add_response_details_to_server_stat response_object count_queued
  set_references-some n pos = rw (not_zero n pos) refl

  unqueued-queued :
      (n i : ℕ) → count_unqueued size_of_response (counted_object r n i) counted_stat ≡ t
  unfolding count_unqueued count_queued response_object
  unqueued-queued n i =
      let size = length r.bytes + size_of_response in
      elim (Bool-cases r.is_forward) [
        | inl y ↦ simp (
          y,
          add_sub t.responses_in_peer_servers_queues 1,
          add_sub t.memory_consumption_by_responses_in_queue size,
        )
        | inr n' ↦ simp (
          n',
          add_sub t.responses_in_local_clients_queues 1,
          add_sub t.memory_consumption_by_responses_in_queue size,
        )
      ]

  not_last :
      (n i : ℕ) (t' : QueueStat)
      → i + 1 < n
      → count_reference size_of_response (counted_object r n i) t'
        ≡ some (t', counted_object r n (i + 1))
  unfolding count_reference
  not_last n i t' few = ground arith

  last :
      (n i : ℕ)
      → i + 1 ≡ n
      → count_reference size_of_response (counted_object r n i) counted_stat
        ≡ some (t, record (counted_object r n n) { deleted = true })
  unfolding count_reference
  last n i e = rw (same_number (i + 1) n e, unqueued-queued n i, e) refl

  -- From the callback `i` on: `j` more.
  further :
      (n j i : ℕ)
      → j + i < n
      → count_references size_of_response j (counted_object r n i) counted_stat
        ≡ some (counted_stat, counted_object r n (j + i))
  unfolding count_references
  further n zero i few =
      subst
        (λ (x : ℕ).
          count_references size_of_response 0 (counted_object r n i) counted_stat
          ≡ some (counted_stat, counted_object r n x))
        (omega arith) refl
  further n (suc j) i few = rw (not_last n i counted_stat (omega arith)) (
      subst
        (λ (x : ℕ).
          count_references size_of_response j (counted_object r n (i + 1)) counted_stat
          ≡ some (counted_stat, counted_object r n x))
        (omega arith) (further n j (i + 1) (omega arith)))

  to_the_end :
      (n j i : ℕ)
      → suc j + i ≡ n
      → count_references size_of_response (suc j) (counted_object r n i) counted_stat
        ≡ some (t, record (counted_object r n n) { deleted = true })
  unfolding count_references
  to_the_end n zero i e = rw (last n i (omega arith)) refl
  to_the_end n (suc j) i e =
      rw (not_last n i counted_stat (omega arith)) (to_the_end n j (i + 1) (omega arith))

queued_one :
    (size_of_response : ℕ) (r : Response) (t : QueueStat)
    → get_responses_in_queue (count_queued size_of_response (response_object r) t)
      ≡ get_responses_in_queue t + 1
unfolding get_responses_in_queue count_queued response_object
queued_one size_of_response r t = ground arith

-- A new response that is put into `n` queues, and the callbacks of `i` of them.
abbrev pub lifetime : ℕ → ℕ → ℕ → Response → QueueStat → Option (QueueStat × ResponseObject)
lifetime size_of_response n i r t =
    set_references size_of_response n (response_object r) t >>= λ (t', o).
    count_references size_of_response i o t'

module _ (size_of_response : ℕ) (r : Response) (t : QueueStat) where
  -- A new response that is put into `n` queues, at least one, is one more response in the queues; until
  -- the callback of its last queue the counters stay and it is not deleted; with that callback it is
  -- deleted, and every counter is what it was before the response was queued.
  pub lifetime_lem :
      (n i : ℕ)
      → 0 < n
      → i < n
      → (lifetime size_of_response n i r t
          ≡ some (count_queued size_of_response (response_object r) t, counted_object r n i))
        × (lifetime size_of_response n n r t
            ≡ some (t, record (counted_object r n n) { deleted = true }))
        × (get_responses_in_queue (count_queued size_of_response (response_object r) t)
            ≡ get_responses_in_queue t + 1)
  lifetime_lem zero i pos few = absurd (omega arith)
  lifetime_lem (suc n) i pos few = (
    rw (set_references-some size_of_response r t (suc n) pos) (
        subst
          (λ (x : ℕ).
            count_references size_of_response i (counted_object r (suc n) 0)
              (counted_stat size_of_response r t)
            ≡ some (counted_stat size_of_response r t, counted_object r (suc n) x))
          (omega arith) (further size_of_response r t (suc n) i 0 (omega arith))),
    rw (set_references-some size_of_response r t (suc n) pos)
        (to_the_end size_of_response r t (suc n) n 0 (omega arith)),
    queued_one size_of_response r t,
  )
