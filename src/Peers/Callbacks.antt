-- ===== src/Peers/Callbacks.antt =====
-- The callbacks of a connection to a peer server: `after_getaddrinfo`, `after_connect` and
-- `on_server_closed` of Pulsar/src/PeerServersManager.cpp.
pub mod Starting
use pulsar_server_framework.Prelude.{
  ℕ, ◌-◌, ◌≡◌, ◌≢◌, refl, inl, inr, some, Bool, true, false, arith, Bool-cases, ltb,
}
use pulsar_server_framework.Peers.{
  Status, connecting, connected, disconnecting, uninitiated, disconnected, connecting_timed_out,
  Outcome, accepted, minus_one, other_error, wait_for_connection, retry_connection_after,
  PeerServer, PeerManager, disconnect_server, can_disconnect, on_server_closed, get_address,
  initiate_connection, connect, after_getaddrinfo, start_reading, after_connect, Connection, World,
  initiated, same, connection_of, get_server_connection, increased, decreased,
}
use pulsar_server_framework.Peers.States.{
  Others, HasFlags, IsPhase, is_new, is_resolving_name, is_awaiting, is_open, is_closing, is_closed,
  one_if_connected, IsConnection, IsUntouched, untouched, disconnect_server-IsConnection,
}
use pulsar_server_framework.Peers.Phases.{
  phase_of_close, phase_of_resolving, phase_of_connect, phase_of_reading,
}

module _ (k : Others) (m : PeerManager) (p : PeerServer) where
  pub on_server_closed-IsConnection :
      (now : ℕ)
      → IsConnection k m p
      → p.is_close_pending ≡ true
      → IsConnection k (on_server_closed now m p).0 (on_server_closed now m p).1
  unfolding on_server_closed
  on_server_closed-IsConnection now h pending =
      let (e, f) = phase_of_close p h.phase pending in
      record {
        phase = is_closed refl (record {
          connection_flag = refl;
          reading_flag = f.reading_flag;
          resolving_flag = f.resolving_flag;
          connect_flag = f.connect_flag;
          close_flag = refl;
        });
        addressed = h.addressed;
        connected_count = ground (arith, h.connected_count, e);
        connecting_count = h.connecting_count;
        closing_count = ground (arith, h.closing_count, f.close_flag, k.closing_fits);
      }

  pub after_getaddrinfo-IsConnection :
      (status_ok : Bool)
      → IsConnection k m p
      → p.is_resolving ≡ true
      → IsConnection k
          (after_getaddrinfo status_ok accepted m p).0
          (after_getaddrinfo status_ok accepted m p).1
  unfolding after_getaddrinfo connect
  after_getaddrinfo-IsConnection true h pending =
      let (e, f) = phase_of_resolving p h.phase pending in
      record {
        phase = is_awaiting e (record {
          connection_flag = f.connection_flag;
          reading_flag = f.reading_flag;
          resolving_flag = refl;
          connect_flag = refl;
          close_flag = f.close_flag;
        });
        addressed = h.addressed;
        connected_count = h.connected_count;
        connecting_count = ground (arith, h.connecting_count, f.connect_flag, k.connecting_fits);
        closing_count = h.closing_count;
      }
  after_getaddrinfo-IsConnection false h pending =
      let (e, f) = phase_of_resolving p h.phase pending in
      record {
        phase = is_closed refl (record {
          connection_flag = f.connection_flag;
          reading_flag = f.reading_flag;
          resolving_flag = refl;
          connect_flag = f.connect_flag;
          close_flag = f.close_flag;
        });
        addressed = h.addressed;
        connected_count = ground (arith, h.connected_count, e);
        connecting_count = h.connecting_count;
        closing_count = h.closing_count;
      }

  phase-IsUntouched :
      (s : Status) (c r t u : Bool)
      → IsUntouched p (record p {
        status = s;
        has_connection = c;
        is_reading = r;
        is_connect_pending = t;
        is_close_pending = u;
      })
  phase-IsUntouched s c r t u = record {
    queue1 = refl;
    queue2 = refl;
    being_sent = refl;
    set1 = refl;
    set2 = refl;
    input = refl;
    same_version = refl;
  }

  -- The server and the manager once the connection is made.
  abbrev awaited_manager : PeerManager
  awaited_manager = record m { servers_connecting = decreased m.servers_connecting }

  abbrev connected_manager : PeerManager
  connected_manager = record awaited_manager { servers_connected = increased m.servers_connected }

  abbrev connected_server : Bool → PeerServer
  connected_server r = record p {
    status = connected;
    has_connection = true;
    is_connect_pending = false;
    is_reading = r;
  }

  connected-IsConnection :
      (r : Bool)
      → IsConnection k m p
      → p.status ≡ connecting
      → HasFlags p false false false true false
      → IsConnection k connected_manager (connected_server r)
  connected-IsConnection r h e f = record {
    phase = is_open r refl (record {
      connection_flag = refl;
      reading_flag = refl;
      resolving_flag = f.resolving_flag;
      connect_flag = refl;
      close_flag = f.close_flag;
    });
    addressed = h.addressed;
    connected_count = ground (arith, h.connected_count, e, k.connected_fits);
    connecting_count = ground (arith, h.connecting_count, f.connect_flag, k.connecting_fits);
    closing_count = h.closing_count;
  }

  start_reading-IsConnection :
      (r : Outcome)
      → IsConnection k m p
      → p.status ≡ connecting
      → HasFlags p false false false true false
      → (m' : PeerManager) × (p' : PeerServer) × (start_reading r connected_manager
            (connected_server p.is_reading)
          ≡ some (m', p'))
        × IsConnection k m' p'
        × IsUntouched p p'
        × (m'.stat ≡ m.stat)
  unfolding start_reading
  start_reading-IsConnection accepted h e f = (
    connected_manager,
    connected_server true,
    refl,
    connected-IsConnection true h e f,
    phase-IsUntouched connected true true false p.is_close_pending,
    refl,
  )
  start_reading-IsConnection other_error h e f = (
    connected_manager,
    connected_server p.is_reading,
    refl,
    connected-IsConnection p.is_reading h e f,
    phase-IsUntouched connected true p.is_reading false p.is_close_pending,
    refl,
  )
  start_reading-IsConnection minus_one h e f =
      let (m', p', made, q, u, _, s) =
        disconnect_server-IsConnection k connected_manager (connected_server p.is_reading) true
          (connected-IsConnection p.is_reading h e f) (λ _. refl) in
      (
        m',
        p',
        made,
        q,
        record {
          queue1 = u.queue1;
          queue2 = u.queue2;
          being_sent = u.being_sent;
          set1 = u.set1;
          set2 = u.set2;
          input = u.input;
          same_version = u.same_version;
        },
        s,
      )

  -- The connection that could not be made is closed.
  refused-IsConnection :
      IsConnection k m p
      → p.status ≡ connecting
      → HasFlags p false false false true false
      → (m' : PeerManager) × (p' : PeerServer) × (disconnect_server false awaited_manager
            (record p { has_connection = true; is_connect_pending = false })
          ≡ some (m', p'))
        × IsConnection k m' p'
        × IsUntouched p p'
        × (m'.stat ≡ m.stat)
  unfolding disconnect_server can_disconnect
  refused-IsConnection h e f = (
    record awaited_manager { servers_closing = increased m.servers_closing },
    record p {
      has_connection = true;
      is_connect_pending = false;
      status = disconnecting;
      is_reading = false;
      is_close_pending = true;
    },
    simp (e, f.close_flag),
    record {
      phase = is_closing refl (record {
        connection_flag = refl;
        reading_flag = refl;
        resolving_flag = f.resolving_flag;
        connect_flag = refl;
        close_flag = refl;
      });
      addressed = h.addressed;
      connected_count = ground (arith, h.connected_count, e);
      connecting_count = ground (arith, h.connecting_count, f.connect_flag, k.connecting_fits);
      closing_count = ground (arith, h.closing_count, f.close_flag, k.closing_fits);
    },
    phase-IsUntouched disconnecting true false false true,
    refl,
  )

  pub after_connect-IsConnection :
      (status_ok : Bool) (uv_read_start : Outcome)
      → IsConnection k m p
      → p.is_connect_pending ≡ true
      → (m' : PeerManager) × (p' : PeerServer) × (after_connect status_ok true uv_read_start m p
          ≡ some (m', p'))
        × IsConnection k m' p'
        × IsUntouched p p'
        × (m'.stat ≡ m.stat)
  unfolding after_connect
  after_connect-IsConnection false uv_read_start h pending =
      let (e, f) = phase_of_connect p h.phase pending in refused-IsConnection h e f
  after_connect-IsConnection true uv_read_start h pending =
      let (e, f) = phase_of_connect p h.phase pending in
      start_reading-IsConnection uv_read_start h e f
