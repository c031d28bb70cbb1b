-- ===== src/Processor/Splitting.antt =====
-- How `CreateResponseAndAddToQueues` of Pulsar/src/RequestProcessor.cpp splits a server's handles.
use pulsar_server_framework.Prelude.{
  ℕ, zero, suc, ◌+◌, ◌^◌, ◌≤◌, ◌<◌, ◌≡◌, ◌≢◌, ◌⊎◌, ◌∙◌, refl, sym, ap, subst, inl, inr, List, [],
  ◌∷◌, ◌++◌, none, some, Bool, true, false, length, take, drop, All, arith, take-append-drop,
  length-drop, length-take,
}
use pulsar_server_framework.ByteOrder.{ByteOrder}
use pulsar_server_framework.Handles.{ClientHandle}
use pulsar_server_framework.Protocol.Constants.{max_handles_in_forwarded_response}
use pulsar_server_framework.Protocol.Parser.{Registry}
use pulsar_server_framework.Protocol.Response.{Response}
use pulsar_server_framework.Protocol.Response.Wire.{HasU64}
use pulsar_server_framework.Protocol.Response.Ends.{AreOfOneServer, new_response-Ends}
use pulsar_server_framework.Processor.{
  Queued, Stored, range_size, push_queued, create_response, create_response_and_add_to_queues,
}

-- The handles that responses were made for, in the order of the responses.
pub ranges : List Queued → List ClientHandle
ranges [] = []
ranges (q ∷ qs) = q.range ++ ranges qs

-- A range is not empty, and for another server not longer than a forwarded response allows.
pub record IsRange (local_server address : ℕ) (q : Queued) : Type 0 where
  pub not_blank : 0 < length q.range
  pub not_long : address ≢ local_server → length q.range ≤ max_handles_in_forwarded_response

pub record IsSplit (local_server address : ℕ) (hs : List ClientHandle) (s : Stored) : Type 0 where
  pub each : All (IsRange local_server address) s.queued
  -- The handles of all ranges are the first of those given, in order; without an exception, all.
  pub in_order : (rest : List ClientHandle) × (ranges s.queued ++ rest ≡ hs)
  pub complete : s.exception ≡ false → ranges s.queued ≡ hs

-- A handle of the server `address`, whose number is that of an unsigned 64-bit integer.
abbrev pub IsAt : ℕ → ClientHandle → Type 0
IsAt address h = (h.server_ipv4_address ≡ address) × HasU64 h

All-HasU64 : (address : ℕ) (hs : List ClientHandle) → All (IsAt address) hs → All HasU64 hs
All-HasU64 address [] v = tt
All-HasU64 address (h ∷ hs) ((e, u), vs) = (u, All-HasU64 address hs vs)

of_first :
    (address : ℕ) (first : ClientHandle) (more : List ClientHandle)
    → All (IsAt address) (first ∷ more)
    → AreOfOneServer first more
of_first address first [] v = tt
of_first address first (h ∷ hs) ((e, u), ((f, w), vs)) =
    (f ∙ sym e, of_first address first hs ((e, u), vs))

All-take :
    (P : ClientHandle → Type 0) (n : ℕ) (hs : List ClientHandle) → All P hs → All P (take n hs)
All-take P zero hs v = tt
All-take P (suc n) [] v = tt
All-take P (suc n) (h ∷ hs) (v, vs) = (v, All-take P n hs vs)

All-drop :
    (P : ClientHandle → Type 0) (n : ℕ) (hs : List ClientHandle) → All P hs → All P (drop n hs)
All-drop P zero hs v = v
All-drop P (suc n) [] v = tt
All-drop P (suc n) (h ∷ hs) (v, vs) = All-drop P n hs vs

range_lem :
    (n : ℕ) (h : ClientHandle) (hs : List ClientHandle)
    → 0 < n
    → h ∷ drop 1 (take n (h ∷ hs)) ≡ take n (h ∷ hs)
range_lem zero h hs pos = absurd (omega arith)
range_lem (suc n) h hs pos = refl

range_size-bounds :
    (local_server address : ℕ) (h : ClientHandle) (hs : List ClientHandle)
    → h.server_ipv4_address ≡ address
    → (0 < range_size local_server h hs)
      × (range_size local_server h hs ≤ length (h ∷ hs))
      × (address ≢ local_server → range_size local_server h hs ≤ max_handles_in_forwarded_response)
unfolding range_size
range_size-bounds local_server address h hs e = ground arith

append_assoc : (xs ys zs : List ClientHandle) → (xs ++ ys) ++ zs ≡ xs ++ (ys ++ zs)
append_assoc [] ys zs = refl
append_assoc (x ∷ xs) ys zs = ap (◌∷◌ x) (append_assoc xs ys zs)

rejoined : (n : ℕ) (hs xs ys : List ClientHandle) → xs ≡ take n hs → ys ≡ drop n hs → xs ++ ys ≡ hs
rejoined n hs xs ys e f = rw (e, f) (take-append-drop n hs)

module _ ⦃o : ByteOrder⦄ (processors : Registry) (local_server : ℕ) (response : List ℕ)
    (version : ℕ) (update : Bool) (hv : version < 2 ^ 16)
    (hl : length response + 131087 < 2 ^ 32) where
  create_response-cases :
      (allocation_fails : Bool) (first : ClientHandle) (more handles : List ClientHandle)
      → (address : ℕ) → All (IsAt address) (first ∷ more)
      → (create_response processors local_server response version update allocation_fails first more
            handles
          ≡ some none)
        ⊎ ((r : Response) × (create_response processors local_server response version update
                allocation_fails first more handles
              ≡ some (some (record { response = r; range = first ∷ more; handles = handles }))))
  unfolding create_response
  create_response-cases true first more handles address at = inl refl
  create_response-cases false first more handles address at =
      elim (new_response-Ends processors response version hv hl local_server first more update
        (of_first address first more at) (All-HasU64 address (first ∷ more) at)) [
          | inl e ↦ inl (rw e refl)
          | inr (r, e) ↦ inr (r, rw e refl)
        ]

  pushed-IsSplit :
      (address n : ℕ) (hs : List ClientHandle) (q : Queued) (s : Stored)
      → q.range ≡ take n hs
      → IsRange local_server address q
      → IsSplit local_server address (drop n hs) s
      → IsSplit local_server address hs (push_queued q s)
  unfolding push_queued ranges
  pushed-IsSplit address n hs q s e r p =
      let (rest, f) = p.in_order in
      record {
        each = (r, p.each);
        in_order = (
          rest,
          append_assoc q.range (ranges s.queued) rest
              ∙ rejoined n hs q.range (ranges s.queued ++ rest) e f,
        );
        complete = λ k. rejoined n hs q.range (ranges s.queued) e (p.complete k);
      }

  -- For handles of one server, a 16-bit version, and a response whose length with the most additional
  -- bytes fits 32 bits, with as much fuel as there are handles: the loop ends and nothing is written
  -- past a buffer. The responses are for ranges that are not empty and, for another server, hold no more
  -- handles than a forwarded response may; together, in order, they are the first of the handles, and
  -- all of them unless an exception ended the loop.
  pub create_response_and_add_to_queues-IsSplit :
      (allocation_fails : ℕ → Bool) (address fuel split_count : ℕ) (hs : List ClientHandle)
      → length hs ≤ fuel
      → All (IsAt address) hs
      → (s : Stored) × (create_response_and_add_to_queues processors local_server response version
            update allocation_fails fuel split_count hs
          ≡ some s)
        × IsSplit local_server address hs s
  unfolding create_response_and_add_to_queues ranges
  create_response_and_add_to_queues-IsSplit allocation_fails address fuel split_count [] h v = (
    record { queued = []; exception = false },
    refl,
    record { each = tt; in_order = ([], refl); complete = λ e. refl },
  )
  create_response_and_add_to_queues-IsSplit allocation_fails address zero split_count (x ∷ hs) h v =
      absurd (omega arith)
  create_response_and_add_to_queues-IsSplit allocation_fails address (suc fuel) split_count (x ∷ hs)
        h v =
      let n = range_size local_server x hs in
      let (pos, within, few) = range_size-bounds local_server address x hs v.0.0 in
      let more = drop 1 (take n (x ∷ hs)) in
      let whole = range_lem n x hs pos in
      let at : All (IsAt address) (x ∷ more) =
        subst (All (IsAt address)) (sym whole) (All-take (IsAt address) n (x ∷ hs) v) in
      let (s, run, split) =
        create_response_and_add_to_queues-IsSplit allocation_fails address fuel (split_count + 1)
          (drop n (x ∷ hs)) (omega (arith, length-drop n (x ∷ hs)))
          (All-drop (IsAt address) n (x ∷ hs) v) in
      elim (create_response-cases (allocation_fails split_count) x more (x ∷ hs) address at) [
        | inl e ↦ (
          record { queued = []; exception = true },
          rw e refl,
          record { each = tt; in_order = (x ∷ hs, refl); complete = λ f. absurd (ground arith) },
        )
        | inr (r, e) ↦
            let q : Queued = record { response = r; range = x ∷ more; handles = x ∷ hs } in
            (
              push_queued q s,
              rw (e, run) refl,
              pushed-IsSplit address n (x ∷ hs) q s whole
                  (record {
                    not_blank = omega arith;
                    not_long = λ k. omega (arith, few k, ap length whole, length-take n (x ∷ hs));
                  })
                  split,
            )
      ]
