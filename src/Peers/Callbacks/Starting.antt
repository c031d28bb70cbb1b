-- ===== src/Peers/Callbacks/Starting.antt =====
-- `GetServerConnection` of Pulsar/src/PeerServersManager.cpp, which starts the connection to a peer
-- server.
use pulsar_server_framework.Prelude.{
  ℕ, ◌-◌, ◌≡◌, ◌≢◌, refl, inl, inr, some, Bool, true, false, Bool-cases, ltb,
}
use pulsar_server_framework.Peers.{
  Status, connecting, connected, disconnecting, uninitiated, disconnected, connecting_timed_out,
  Outcome, accepted, minus_one, other_error, wait_for_connection, retry_connection_after,
  PeerServer, PeerManager, get_address, initiate_connection, Connection, World, initiated, same,
  connection_of, get_server_connection,
}
use pulsar_server_framework.Peers.States.{
  Others, HasFlags, is_new, is_resolving_name, is_awaiting, is_open, is_closing, is_closed,
  one_if_connected, IsConnection, IsUntouched, untouched,
}

module _ (k : Others) (m : PeerManager) (p : PeerServer) where
  -- What GetServerConnection guarantees.
  pub record IsConnectionFound (c : Connection) : Type 0 where
    pub consistent : IsConnection k c.manager c.server
    pub same_manager : c.manager ≡ m
    pub same_server : IsUntouched p c.server
    -- It is connected only if the server is.
    pub truly_connected : c.conn_status ≡ connected → c.server.status ≡ connected
    pub known : c.conn_status ≢ uninitiated

  same_server-IsUntouched :
      (t : ℕ) (s : Status) (r : Bool)
      → IsUntouched p (record p { status = s; connecting_time = t; is_resolving = r })
  same_server-IsUntouched t s r = record {
    queue1 = refl;
    queue2 = refl;
    being_sent = refl;
    set1 = refl;
    set2 = refl;
    input = refl;
    same_version = refl;
  }

  resolving-IsConnection :
      (now : ℕ)
      → IsConnection k m p
      → one_if_connected p.status ≡ 0
      → HasFlags p false false false false false
      → IsConnection k m
          (record p { status = connecting; connecting_time = now; is_resolving = true })
  resolving-IsConnection now h e f = record {
    phase = is_resolving_name refl (record {
      connection_flag = f.connection_flag;
      reading_flag = f.reading_flag;
      resolving_flag = refl;
      connect_flag = f.connect_flag;
      close_flag = f.close_flag;
    });
    addressed = h.addressed;
    connected_count = rw (h.connected_count, e) refl;
    connecting_count = h.connecting_count;
    closing_count = h.closing_count;
  }

  given_up-IsConnection :
      (now : ℕ)
      → IsConnection k m p
      → one_if_connected p.status ≡ 0
      → HasFlags p false false false false false
      → IsConnection k m (record p { status = disconnected; connecting_time = now })
  given_up-IsConnection now h e f = record {
    phase = is_closed refl (record {
      connection_flag = f.connection_flag;
      reading_flag = f.reading_flag;
      resolving_flag = f.resolving_flag;
      connect_flag = f.connect_flag;
      close_flag = f.close_flag;
    });
    addressed = h.addressed;
    connected_count = rw (h.connected_count, e) refl;
    connecting_count = h.connecting_count;
    closing_count = h.closing_count;
  }

  found_of :
      (p' : PeerServer)
      → IsConnection k m p'
      → IsUntouched p p'
      → p'.status ≢ uninitiated
      → IsConnectionFound (record { conn_status = p'.status; manager = m; server = p' })
  found_of p' h u n = record {
    consistent = h;
    same_manager = refl;
    same_server = u;
    truly_connected = λ e. e;
    known = n;
  }

  given_up_found :
      (now : ℕ)
      → IsConnection k m p
      → one_if_connected p.status ≡ 0
      → HasFlags p false false false false false
      → IsConnectionFound (record {
        conn_status = disconnected;
        manager = m;
        server = record p { status = disconnected; connecting_time = now };
      })
  given_up_found now h e f =
      found_of (record p { status = disconnected; connecting_time = now })
        (given_up-IsConnection now h e f) (same_server-IsUntouched now disconnected p.is_resolving)
        (λ n. cc)

  initiate_connection-found :
      (new_fails : Bool) (o : Outcome) (now : ℕ)
      → IsConnection k m p
      → one_if_connected p.status ≡ 0
      → HasFlags p false false false false false
      → o ≢ other_error
      → IsConnectionFound (record {
        conn_status = (initiate_connection new_fails o now p).status;
        manager = m;
        server = initiate_connection new_fails o now p;
      })
  unfolding initiate_connection get_address
  initiate_connection-found true o now h e f answered = given_up_found now h e f
  initiate_connection-found false minus_one now h e f answered = given_up_found now h e f
  initiate_connection-found false other_error now h e f answered = absurd (answered refl)
  initiate_connection-found false accepted now h e f answered =
      found_of (record p { status = connecting; connecting_time = now; is_resolving = true })
        (resolving-IsConnection now h e f) (same_server-IsUntouched now connecting true) (λ n. cc)

  initiated-IsConnectionFound :
      (w : World)
      → IsConnection k m p
      → one_if_connected p.status ≡ 0
      → HasFlags p false false false false false
      → w.uv_getaddrinfo ≢ other_error
      → IsConnectionFound (initiated w m p)
  unfolding initiated
  initiated-IsConnectionFound w = initiate_connection-found w.new_fails w.uv_getaddrinfo w.now

  unchanged-IsConnectionFound :
      (s : Status)
      → IsConnection k m p
      → (s ≡ connected → p.status ≡ connected)
      → s ≢ uninitiated
      → IsConnectionFound (same s m p)
  unfolding same
  unchanged-IsConnectionFound s h t n = record {
    consistent = h;
    same_manager = refl;
    same_server = untouched p;
    truly_connected = t;
    known = n;
  }

  timed :
      (w : World)
      → IsConnection k m p
      → p.status ≡ connecting
      → (c : Connection) × (get_server_connection w m p ≡ some c) × IsConnectionFound c
  unfolding get_server_connection connection_of
  timed w h e = elim (Bool-cases (ltb wait_for_connection (w.now - p.connecting_time))) [
    | inl late ↦ (
      same connecting_timed_out m p,
      simp (e, late),
      unchanged-IsConnectionFound connecting_timed_out h (λ n. cc) (λ n. cc),
    )
    | inr early ↦ (
      same connecting m p,
      simp (e, early),
      unchanged-IsConnectionFound connecting h (λ n. cc) (λ n. cc),
    )
  ]

  -- From any state of a connection, while libuv answers -1 where uv_getaddrinfo fails,
  -- GetServerConnection fails no assertion.
  pub get_server_connection-IsConnectionFound :
      (w : World)
      → IsConnection k m p
      → w.uv_getaddrinfo ≢ other_error
      → (c : Connection) × (get_server_connection w m p ≡ some c) × IsConnectionFound c
  unfolding get_server_connection connection_of
  get_server_connection-IsConnectionFound w h answered = elim h.phase [
    | is_new e f ↦
        (initiated w m p, simp (e), initiated-IsConnectionFound w h (rw e refl) f answered)
    | is_resolving_name e f ↦ timed w h e
    | is_awaiting e f ↦ timed w h e
    | is_open r e f ↦
        (same connected m p, simp (e), unchanged-IsConnectionFound connected h (λ _. e) (λ n. cc))
    | is_closing e f ↦ (
      same disconnecting m p,
      simp (e),
      unchanged-IsConnectionFound disconnecting h (λ n. cc) (λ n. cc),
    )
    | is_closed e f ↦ elim (Bool-cases (ltb retry_connection_after (w.now - p.disconnected_time))) [
      | inl late ↦
          (initiated w m p, simp (e, late), initiated-IsConnectionFound w h (rw e refl) f answered)
      | inr early ↦ (
        same disconnected m p,
        simp (e, early),
        unchanged-IsConnectionFound disconnected h (λ n. cc) (λ n. cc),
      )
    ]
  ]
