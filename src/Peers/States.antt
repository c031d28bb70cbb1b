-- ===== src/Peers/States.antt =====
-- What a connection to a peer server satisfies between the callbacks of
-- Pulsar/src/PeerServersManager.cpp.
use pulsar_server_framework.Prelude.{
  ℕ, ◌+◌, ◌^◌, ◌<◌, ◌≡◌, refl, ◌∙◌, List, some, Bool, true, false, arith,
}
use pulsar_server_framework.Protocol.Response.{Response}
use pulsar_server_framework.Peers.{
  increased, decreased, Status, connecting, connected, disconnecting, uninitiated, disconnected,
  Forwarding, PeerServer, PeerManager, can_disconnect, disconnect_server,
}

-- The address of the server, and what the other servers add to the three counters.
pub record Others : Type 0 where
  pub address : ℕ
  pub others_connected : ℕ
  pub others_connecting : ℕ
  pub others_closing : ℕ
  pub connected_fits : others_connected + 1 < 2 ^ 32
  pub connecting_fits : others_connecting + 1 < 2 ^ 32
  pub closing_fits : others_closing + 1 < 2 ^ 32

-- The connection, reading, and the three calls that libuv has not answered.
pub record HasFlags (p : PeerServer) (c r a t u : Bool) : Type 0 where
  pub connection_flag : p.has_connection ≡ c
  pub reading_flag : p.is_reading ≡ r
  pub resolving_flag : p.is_resolving ≡ a
  pub connect_flag : p.is_connect_pending ≡ t
  pub close_flag : p.is_close_pending ≡ u

-- What libuv works on for a server of each status.
pub data IsPhase (p : PeerServer) : Type 0 where
  is_new : p.status ≡ uninitiated → HasFlags p false false false false false → IsPhase p
  is_resolving_name : p.status ≡ connecting → HasFlags p false false true false false → IsPhase p
  is_awaiting : p.status ≡ connecting → HasFlags p false false false true false → IsPhase p
  is_open : (r : Bool) → p.status ≡ connected → HasFlags p true r false false false → IsPhase p
  is_closing : p.status ≡ disconnecting → HasFlags p true false false false true → IsPhase p
  is_closed : p.status ≡ disconnected → HasFlags p false false false false false → IsPhase p

abbrev pub one_if_connected : Status → ℕ
one_if_connected connected = 1
one_if_connected s = 0

abbrev pub one_if : Bool → ℕ
one_if true = 1
one_if false = 0

pub record IsConnection (k : Others) (m : PeerManager) (p : PeerServer) : Type 0 where
  pub phase : IsPhase p
  pub addressed : p.ipv4_address ≡ k.address
  pub connected_count : m.servers_connected ≡ k.others_connected + one_if_connected p.status
  pub connecting_count : m.servers_connecting ≡ k.others_connecting + one_if p.is_connect_pending
  pub closing_count : m.servers_closing ≡ k.others_closing + one_if p.is_close_pending

-- The queues, what is being sent, the sets and the input are the same.
pub record IsUntouched (p q : PeerServer) : Type 0 where
  pub queue1 : q.responses_queue1 ≡ p.responses_queue1
  pub queue2 : q.responses_queue2 ≡ p.responses_queue2
  pub being_sent : q.responses_being_sent ≡ p.responses_being_sent
  pub set1 : q.in_set1 ≡ p.in_set1
  pub set2 : q.in_set2 ≡ p.in_set2
  pub input : q.response_bytes ≡ p.response_bytes
  pub same_version : q.version ≡ p.version

pub untouched : (p : PeerServer) → IsUntouched p p
untouched p = record {
  queue1 = refl;
  queue2 = refl;
  being_sent = refl;
  set1 = refl;
  set2 = refl;
  input = refl;
  same_version = refl;
}

pub IsUntouched-trans : (p q r : PeerServer) → IsUntouched p q → IsUntouched q r → IsUntouched p r
IsUntouched-trans p q r u v = record {
  queue1 = v.queue1 ∙ u.queue1;
  queue2 = v.queue2 ∙ u.queue2;
  being_sent = v.being_sent ∙ u.being_sent;
  set1 = v.set1 ∙ u.set1;
  set2 = v.set2 ∙ u.set2;
  input = v.input ∙ u.input;
  same_version = v.same_version ∙ u.same_version;
}

-- The server and the manager once uv_close was called.
abbrev pub closing_manager : PeerManager → PeerManager
closing_manager m = record m {
  servers_connected = decreased m.servers_connected;
  servers_closing = increased m.servers_closing;
}

abbrev pub closing_server : PeerServer → PeerServer
closing_server p = record p { status = disconnecting; is_reading = false; is_close_pending = true }

closing-IsUntouched : (p : PeerServer) → IsUntouched p (closing_server p)
closing-IsUntouched p = record {
  queue1 = refl;
  queue2 = refl;
  being_sent = refl;
  set1 = refl;
  set2 = refl;
  input = refl;
  same_version = refl;
}

module _ (k : Others) (m : PeerManager) (p : PeerServer) where
  pub disconnect_connected :
      (r : Bool)
      → p.status ≡ connected
      → HasFlags p true r false false false
      → disconnect_server true m p ≡ some (closing_manager m, closing_server p)
  unfolding disconnect_server can_disconnect
  disconnect_connected r e f = simp (e, f.connection_flag, f.close_flag)

  pub closing-IsConnection :
      (r : Bool)
      → p.status ≡ connected
      → HasFlags p true r false false false
      → IsConnection k m p
      → IsConnection k (closing_manager m) (closing_server p)
  closing-IsConnection r e f h = record {
    phase = is_closing refl (record {
      connection_flag = f.connection_flag;
      reading_flag = refl;
      resolving_flag = f.resolving_flag;
      connect_flag = f.connect_flag;
      close_flag = refl;
    });
    addressed = h.addressed;
    connected_count = ground (arith, h.connected_count, e, k.connected_fits);
    connecting_count = h.connecting_count;
    closing_count = ground (arith, h.closing_count, f.close_flag, k.closing_fits);
  }

  -- A server of any status can be disconnected.
  pub disconnect_server-IsConnection :
      (reduce : Bool)
      → IsConnection k m p
      → (p.status ≡ connected → reduce ≡ true)
      → (m' : PeerManager) × (p' : PeerServer) × (disconnect_server reduce m p ≡ some (m', p'))
        × IsConnection k m' p'
        × IsUntouched p p'
        × (m'.response_direction_flag ≡ m.response_direction_flag)
        × (m'.stat ≡ m.stat)
  unfolding disconnect_server can_disconnect
  disconnect_server-IsConnection reduce h c = elim h.phase [
    | is_new e f ↦ (m, p, simp (f.connection_flag), h, untouched p, refl, refl)
    | is_resolving_name e f ↦ (m, p, simp (f.connection_flag), h, untouched p, refl, refl)
    | is_awaiting e f ↦ (m, p, simp (f.connection_flag), h, untouched p, refl, refl)
    | is_open r e f ↦ (
      closing_manager m,
      closing_server p,
      simp (e, c e, f.connection_flag, f.close_flag),
      closing-IsConnection r e f h,
      closing-IsUntouched p,
      refl,
      refl,
    )
    | is_closing e f ↦ (m, p, simp (e, f.connection_flag), h, untouched p, refl, refl)
    | is_closed e f ↦ (m, p, simp (f.connection_flag), h, untouched p, refl, refl)
  ]

-- The three counters are the same.
pub record SameCounts (m n : PeerManager) : Type 0 where
  pub same_connected : n.servers_connected ≡ m.servers_connected
  pub same_connecting : n.servers_connecting ≡ m.servers_connecting
  pub same_closing : n.servers_closing ≡ m.servers_closing

-- The status and what libuv works on are the same.
pub record SameConnection (p q : PeerServer) : Type 0 where
  pub same_status : q.status ≡ p.status
  pub same_address : q.ipv4_address ≡ p.ipv4_address
  pub same_flags :
      HasFlags q p.has_connection p.is_reading p.is_resolving p.is_connect_pending
        p.is_close_pending

flags_moved :
    (p q : PeerServer) (c r a t u : Bool)
    → HasFlags q p.has_connection p.is_reading p.is_resolving p.is_connect_pending
        p.is_close_pending
    → HasFlags p c r a t u
    → HasFlags q c r a t u
flags_moved p q c r a t u g f = record {
  connection_flag = g.connection_flag ∙ f.connection_flag;
  reading_flag = g.reading_flag ∙ f.reading_flag;
  resolving_flag = g.resolving_flag ∙ f.resolving_flag;
  connect_flag = g.connect_flag ∙ f.connect_flag;
  close_flag = g.close_flag ∙ f.close_flag;
}

IsPhase-moved : (p q : PeerServer) → SameConnection p q → IsPhase p → IsPhase q
IsPhase-moved p q g (is_new e f) =
    is_new (g.same_status ∙ e) (flags_moved p q false false false false false g.same_flags f)
IsPhase-moved p q g (is_resolving_name e f) =
    is_resolving_name (g.same_status ∙ e)
      (flags_moved p q false false true false false g.same_flags f)
IsPhase-moved p q g (is_awaiting e f) =
    is_awaiting (g.same_status ∙ e) (flags_moved p q false false false true false g.same_flags f)
IsPhase-moved p q g (is_open r e f) =
    is_open r (g.same_status ∙ e) (flags_moved p q true r false false false g.same_flags f)
IsPhase-moved p q g (is_closing e f) =
    is_closing (g.same_status ∙ e) (flags_moved p q true false false false true g.same_flags f)
IsPhase-moved p q g (is_closed e f) =
    is_closed (g.same_status ∙ e) (flags_moved p q false false false false false g.same_flags f)

pub IsConnection-moved :
    (k : Others) (m n : PeerManager) (p q : PeerServer)
    → SameCounts m n
    → SameConnection p q
    → IsConnection k m p
    → IsConnection k n q
IsConnection-moved k m n p q s g h = record {
  phase = IsPhase-moved p q g h.phase;
  addressed = g.same_address ∙ h.addressed;
  connected_count = s.same_connected ∙ (rw (g.same_status) (h.connected_count));
  connecting_count = s.same_connecting ∙ (rw (g.same_flags.connect_flag) (h.connecting_count));
  closing_count = s.same_closing ∙ (rw (g.same_flags.close_flag) (h.closing_count));
}

-- A server whose connection is as it was.
pub same_connection : (p : PeerServer) → SameConnection p p
same_connection p = record {
  same_status = refl;
  same_address = refl;
  same_flags = record {
    connection_flag = refl;
    reading_flag = refl;
    resolving_flag = refl;
    connect_flag = refl;
    close_flag = refl;
  };
}

-- Queues, sets and input do not matter to the connection.
abbrev pub requeued :
    PeerServer
    → List Response
    → List Response
    → List Forwarding
    → Bool
    → Bool
    → List ℕ
    → ℕ
    → PeerServer
requeued p q1 q2 fs s1 s2 b v = record p {
  responses_queue1 = q1;
  responses_queue2 = q2;
  responses_being_sent = fs;
  in_set1 = s1;
  in_set2 = s2;
  response_bytes = b;
  version = v;
}

pub requeued_connection :
    (p : PeerServer) (q1 q2 : List Response) (fs : List Forwarding) (s1 s2 : Bool) (b : List ℕ)
    (v : ℕ)
    → SameConnection p (requeued p q1 q2 fs s1 s2 b v)
requeued_connection p q1 q2 fs s1 s2 b v = record {
  same_status = refl;
  same_address = refl;
  same_flags = record {
    connection_flag = refl;
    reading_flag = refl;
    resolving_flag = refl;
    connect_flag = refl;
    close_flag = refl;
  };
}

pub same_counts : (m : PeerManager) → SameCounts m m
same_counts m = record { same_connected = refl; same_connecting = refl; same_closing = refl }

pub requeued-IsConnection :
    (k : Others) (m n : PeerManager) (p : PeerServer) (q1 q2 : List Response) (fs : List Forwarding)
    (s1 s2 : Bool) (b : List ℕ) (v : ℕ)
    → SameCounts m n
    → IsConnection k m p
    → IsConnection k n (requeued p q1 q2 fs s1 s2 b v)
requeued-IsConnection k m n p q1 q2 fs s1 s2 b v s h =
    IsConnection-moved k m n p (requeued p q1 q2 fs s1 s2 b v) s
      (requeued_connection p q1 q2 fs s1 s2 b v) h
