-- ===== src/Lifecycle/Accepting/Settling.antt =====
-- What becomes of a client that has connected: Pulsar/src/LocalClientsManager.cpp.
use pulsar_server_framework.Prelude.{
  ℕ, ◌+◌, ◌≡◌, ◌⊎◌, refl, sym, subst, inl, inr, none, some, Option, Bool, true, false, arith,
  Bool-cases, ◌||◌,
}
use pulsar_server_framework.Client.{Client, Server, new_client, initial_client}
use pulsar_server_framework.Lifecycle.{
  disconnect_and_delete, try_to_remove, queue_disconnection, mark_to_disconnect, stop_reading,
}
use pulsar_server_framework.Lifecycle.Disconnection.{IsConsistent, disconnect_and_delete-IsSafe}
use pulsar_server_framework.Lifecycle.Accepting.{
  Arrival, ReadStart, started, minus_one, other_error, is_minus_one, delete_client,
  accept_connection, turned_away, admit, on_new_client, counted_exception,
}
use pulsar_server_framework.Pool.{add_client, remove_client}

-- What may become of a client: there is none, or it is consistent, and either in the pool and not
-- marked, where uv_read_start was accepted or has failed with a code other than -1, or out of the pool
-- with its disconnection queued.
abbrev pub IsSettled : Arrival → Server → Server → Option Client → Type 0
IsSettled a s s' none = s'.queued_disconnections ≡ s.queued_disconnections
IsSettled a s s' (some c) =
    IsConsistent c
    × (((c.in_pool ≡ true)
          × (c.is_read_started ≡ true)
          × (c.to_be_disconnected ≡ false)
          × ((a.read_start ≡ started) ⊎ (a.read_start ≡ other_error))
          × (s'.queued_disconnections ≡ s.queued_disconnections))
        ⊎ ((c.in_pool ≡ false)
            × (c.disconnect_initiated ≡ true)
            × (s'.queued_disconnections ≡ s.queued_disconnections + 1)))

-- A client before it is added: consistent, unknown to the pool, and not marked.
record IsFresh (c : Client) : Type 0 where
  consistent : IsConsistent c
  outside : c.in_pool ≡ false
  not_added : c.is_added_to_pool ≡ false
  unmarked : c.to_be_disconnected ≡ false
  first : c.disconnect_initiated ≡ false
  idle : c.request_is_being_processed ≡ false
  finished : c.request_processing_finished ≡ true

turned_away-queued :
    (s : Server) (c : Client)
    → IsFresh c
    → c.is_accepted ≡ true
    → ((disconnect_and_delete true s c).client.in_pool ≡ false)
      × ((disconnect_and_delete true s c).client.disconnect_initiated ≡ true)
      × ((disconnect_and_delete true s c).server.queued_disconnections
          ≡ s.queued_disconnections + 1)
unfolding disconnect_and_delete try_to_remove queue_disconnection mark_to_disconnect stop_reading
    remove_client
turned_away-queued s c f a =
    ground (arith, f.outside, f.not_added, f.unmarked, f.first, f.idle, f.finished, a)

-- The client that was accepted, and the one that is read.
abbrev taken_up : Client → Client
taken_up c = record c { is_accepted = true }

abbrev read_up : Client → Client
read_up c = record c { is_accepted = true; is_read_started = true }

not_minus_one : (r : ReadStart) → is_minus_one r ≡ false → (r ≡ started) ⊎ (r ≡ other_error)
not_minus_one started e = inl refl
not_minus_one minus_one e = absurd (ground arith)
not_minus_one other_error e = inr refl

accept_cases :
    (a : Arrival) (c : Client)
    → (accept_connection a c ≡ (c, false))
      ⊎ (accept_connection a c ≡ (taken_up c, false))
      ⊎ ((accept_connection a c ≡ (read_up c, true))
          × ((a.read_start ≡ started) ⊎ (a.read_start ≡ other_error)))
unfolding accept_connection
accept_cases a c = elim (Bool-cases a.accepts) [
  | inr n ↦ inl (rw n refl)
  | inl y ↦ elim (Bool-cases a.send_buffer_set) [
    | inr n1 ↦ inr (inl (rw (y, n1) refl))
    | inl y1 ↦ elim (Bool-cases a.receive_buffer_set) [
      | inr n2 ↦ inr (inl (rw (y, y1, n2) refl))
      | inl y2 ↦ elim (Bool-cases (is_minus_one a.read_start)) [
        | inl y3 ↦ inr (inl (rw (y, y1, y2, y3) refl))
        | inr n3 ↦ inr (inr (rw (y, y1, y2, n3) refl, not_minus_one a.read_start n3))
      ]
    ]
  ]
]

moved_up :
    (c : Client) (r : Bool)
    → IsFresh c
    → IsFresh (record c { is_accepted = true; is_read_started = r })
moved_up c r f = record {
  consistent = record {
    processing_counted = f.consistent.processing_counted;
    idle_counted = f.consistent.idle_counted;
    finished = f.consistent.finished;
    responses_counted = f.consistent.responses_counted;
    pool_flag = f.consistent.pool_flag;
    accepted = λ e. refl;
    outside = f.consistent.outside;
    gone = f.consistent.gone;
  };
  outside = f.outside;
  not_added = f.not_added;
  unmarked = f.unmarked;
  first = f.first;
  idle = f.idle;
  finished = f.finished;
}

away-IsSettled :
    (a : Arrival) (s : Server) (c : Client) (r : Bool)
    → IsFresh c
    → IsSettled a s
        (turned_away s (record c { is_accepted = true; is_read_started = r })).0
        (turned_away s (record c { is_accepted = true; is_read_started = r })).1
unfolding turned_away
away-IsSettled a s c r f =
    let d : Client = record c { is_accepted = true; is_read_started = r } in
    let g = moved_up c r f in
    let h = disconnect_and_delete-IsSafe true s d g.consistent refl in
    (h.consistent, inr (turned_away-queued s d g refl))

added-IsConsistent :
    (c : Client)
    → IsFresh c
    → IsConsistent (record (read_up c) { in_pool = true; is_added_to_pool = true })
added-IsConsistent c f =
    let v = (moved_up c true f).consistent in
    record {
      processing_counted = v.processing_counted;
      idle_counted = v.idle_counted;
      finished = v.finished;
      responses_counted = v.responses_counted;
      pool_flag = refl;
      accepted = λ e. refl;
      outside = λ e. absurd (cc e);
      gone = λ e. absurd (cc (e, f.first));
    }

admit-IsSettled :
    (a : Arrival) (s : Server) (c : Client)
    → IsFresh c
    → c.is_accepted ≡ false
    → IsSettled a s (admit a s c).0 (admit a s c).1
unfolding admit add_client delete_client
admit-IsSettled a s c f new = elim (accept_cases a c) [
  | inl e ↦ rw (e, new) refl
  | inr (inl e) ↦ rw e (away-IsSettled a s c c.is_read_started f)
  | inr (inr (e, started_or)) ↦ elim (Bool-cases (s.is_server_shutting_down || a.map_fails)) [
    | inl y ↦ rw (e, y) (away-IsSettled a s c true f)
    | inr n ↦ rw (e, n) (added-IsConsistent c f, inl (refl, refl, f.unmarked, started_or, refl))
  ]
]

fresh : (now address : ℕ) (s : Server) → IsFresh (new_client now address s).1
unfolding new_client initial_client
fresh now address s = ground arith

-- The server that has counted a new client.
abbrev with_client : ℕ → ℕ → ℕ → Server → Server
with_client now client_memory address s =
    let s' = (new_client now address s).0 in
    let t = s'.stat in
    record s' {
      stat = record t {
        memory_consumption_by_clients = t.memory_consumption_by_clients + client_memory;
      };
    }

arrives :
    (client_memory address : ℕ) (a : Arrival) (s : Server)
    → a.status_ok ≡ true
    → a.callback_error ≡ false
    → a.new_fails ≡ false
    → a.locks_fail ≡ false
    → a.reserve_fails ≡ false
    → on_new_client client_memory address a s
      ≡ admit a (with_client a.now client_memory address s) (new_client a.now address s).1
unfolding on_new_client
arrives client_memory address a s y n1 n2 n3 n4 = rw (y, n1, n2, n3, n4) refl

arrived-IsSettled :
    (client_memory address : ℕ) (a : Arrival) (s : Server)
    → IsSettled a s
        (admit a (with_client a.now client_memory address s) (new_client a.now address s).1).0
        (admit a (with_client a.now client_memory address s) (new_client a.now address s).1).1
unfolding new_client initial_client
arrived-IsSettled client_memory address a s =
    admit-IsSettled a (with_client a.now client_memory address s) (new_client a.now address s).1
      (fresh a.now address s) refl

-- Whatever libuv and the system answer, a connection is either left without an object, or its client is
-- consistent, and then outside the pool with its disconnection queued once, or in the pool and not
-- marked. In the last case uv_read_start was accepted, or failed with a code other than -1: then the
-- client is flagged as read although libuv does not read it.
pub on_new_client-IsSettled :
    (client_memory address : ℕ) (a : Arrival) (s : Server)
    → IsSettled a s
        (on_new_client client_memory address a s).0
        (on_new_client client_memory address a s).1
unfolding on_new_client counted_exception new_client
on_new_client-IsSettled client_memory address a s = elim (Bool-cases a.status_ok) [
  | inr n ↦ rw n refl
  | inl y ↦ elim (Bool-cases a.callback_error) [
    | inl y1 ↦ rw (y, y1) refl
    | inr n1 ↦ elim (Bool-cases a.new_fails) [
      | inl y2 ↦ rw (y, n1, y2) refl
      | inr n2 ↦ elim (Bool-cases a.locks_fail) [
        | inl y3 ↦ rw (y, n1, n2, y3) refl
        | inr n3 ↦ elim (Bool-cases a.reserve_fails) [
          | inl y4 ↦ rw (y, n1, n2, n3, y4) refl
          | inr n4 ↦
              subst (λ (x : Server × Option Client). IsSettled a s x.0 x.1)
                (sym (arrives client_memory address a s y n1 n2 n3 n4))
                (arrived-IsSettled client_memory address a s)
        ]
      ]
    ]
  ]
]
