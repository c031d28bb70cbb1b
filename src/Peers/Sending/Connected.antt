-- ===== src/Peers/Sending/Connected.antt =====
-- A connected peer server while libuv accepts what it is given: Pulsar/src/PeerServersManager.cpp.
use pulsar_server_framework.Peers.Sending.Servers.{sent_queue}
use pulsar_server_framework.Protocol.Response.{Response}
use pulsar_server_framework.Prelude.{
  ◌≡◌, some, true, false, arith, Bool-cases, length, inl, inr, refl, not, Bool, ap, List, [], ℕ,
  ◌∷◌, sym, subst, Option, Option-cases,
}
use pulsar_server_framework.Peers.{
  PeerServer, PeerManager, World, connected, is_connected, connection_of, get_server_connection,
  same, Status, Forwarding,
}
use pulsar_server_framework.Peers.Sending.{
  send_to_server, send_peer_server_responses, forward_queue, forward, take_queue, server_erased,
  is_connecting, toggled, peer_unlocked_queue, peer_locked_queue, peer_unlocked_set,
  after_each_forwarding, after_sending_response, after_sending_peer_servers_responses,
  count_forwarding, increase_forwarded_responses_count, server_back_to_sets, count_forwarded,
  after_forwarding,
}
use pulsar_server_framework.Peers.Sending.Rounds.{IsForwarding, IsForwardQueue}

take_queue-status : (flag : _) (s : _) (p : PeerServer) → (take_queue flag s p).status ≡ p.status
unfolding take_queue
take_queue-status true s p = refl
take_queue-status false s p = refl

server_erased-status : (flag : _) (p : PeerServer) → (server_erased flag p).status ≡ p.status
unfolding server_erased
server_erased-status true p = refl
server_erased-status false p = refl

forward_queue-connected :
    (w : World) (flag : Bool) (m m' : PeerManager) (p p' : PeerServer)
    → p.status ≡ connected
    → w.uv_write_ok ≡ true
    → forward_queue w flag connected m p ≡ some (m', p')
    → p'.status ≡ connected
unfolding forward_queue forward is_connected is_connecting
forward_queue-connected w flag m m' p p' e ok h =
    let q = take_queue flag connected p in
    ground (
      arith,
      e,
      ok,
      take_queue-status flag connected p,
      server_erased-status flag q,
      server_erased-status flag p,
    )

send_peer-connected :
    (w : World) (m m' : PeerManager) (p p' : PeerServer)
    → p.status ≡ connected
    → w.uv_write_ok ≡ true
    → send_peer_server_responses w m p ≡ some (m', p')
    → p'.status ≡ connected
unfolding send_peer_server_responses get_server_connection connection_of same
send_peer-connected w m m' p p' e ok h =
    forward_queue-connected w m.response_direction_flag m m' (record p { status = connected }) p'
      refl ok (rw e at (h))

-- A server that is connected stays so in SendResponses, if uv_write accepts what it is given.
pub send_to_server-connected :
    (w : World) (m m' : PeerManager) (p p' : PeerServer)
    → p.status ≡ connected
    → w.uv_write_ok ≡ true
    → send_to_server w m p ≡ some (m', p')
    → p'.status ≡ connected
unfolding send_to_server
send_to_server-connected w m m' p p' e ok h =
    ground (arith, e, send_peer-connected w (toggled m) m' p p' e ok)

-- The queue that is sent from is empty, and the other is as it was.
pub record IsTaken (flag : Bool) (p q : PeerServer) : Type 0 where
  pub sent_from : peer_unlocked_queue flag q ≡ []
  pub other_queue : peer_locked_queue flag q ≡ peer_locked_queue flag p

IsTaken-erased :
    (flag : Bool) (s : Status) (p : PeerServer)
    → IsTaken flag p (server_erased flag (take_queue flag s p))
unfolding take_queue server_erased
IsTaken-erased true s p = record { sent_from = refl; other_queue = refl }
IsTaken-erased false s p = record { sent_from = refl; other_queue = refl }

not_listed :
    {a : ℕ} (q : List Response) (listed : Bool) (n : ℕ)
    → IsForwardQueue a q listed n
    → n ≡ 0
    → listed ≡ false
    → q ≡ []
not_listed [] listed n h idle out = refl
not_listed (r ∷ q) listed n h idle out =
    absurd (elim (h.announced (omega arith)) [
      | inl l ↦ cc (l, out)
      | inr pos ↦ omega (arith, pos, idle)
    ])

no_work :
    {a : ℕ} (flag : Bool) (p : PeerServer)
    → IsForwarding a p
    → p.responses_being_sent ≡ []
    → peer_unlocked_set flag p ≡ false
    → peer_unlocked_queue flag p ≡ []
no_work flag p g idle out =
    let q = sent_queue flag p g in
    not_listed (peer_unlocked_queue flag p) (peer_unlocked_set flag p)
      (length p.responses_being_sent) q (ap length idle) out

forward_queue-taken :
    (w : World) (flag : Bool) (m m' : PeerManager) (p p' : PeerServer)
    → p.responses_being_sent ≡ []
    → w.uv_write_ok ≡ true
    → w.reserve_fails ≡ false
    → forward_queue w flag connected m p ≡ some (m', p')
    → p' ≡ server_erased flag (take_queue flag connected p)
unfolding forward_queue forward is_connected is_connecting
forward_queue-taken w flag m m' p p' idle ok lasts h = ground (arith, ok, lasts, ap length idle)

same_of :
    (x : Option (PeerManager × PeerServer)) (m m' : PeerManager) (p p' : PeerServer)
    → x ≡ some (m, p)
    → x ≡ some (m', p')
    → p ≡ p'
same_of x m m' p p' g h = ground (arith, g, h)

-- SendResponses for a connected server that nothing is being sent to takes the whole queue.
pub send_to_server-IsTaken :
    {a : ℕ} (w : World) (m m' : PeerManager) (p p' : PeerServer)
    → IsForwarding a p
    → p.status ≡ connected
    → p.responses_being_sent ≡ []
    → w.uv_write_ok ≡ true
    → w.reserve_fails ≡ false
    → send_to_server w m p ≡ some (m', p')
    → IsTaken (not m.response_direction_flag) p p'
unfolding send_to_server toggled send_peer_server_responses get_server_connection connection_of same
send_to_server-IsTaken w m m' p p' g e idle ok lasts h =
    let flag = not m.response_direction_flag in
    elim (Bool-cases (peer_unlocked_set flag p)) [
      | inl listed ↦
          let q : PeerServer = record p { status = connected } in
          let t = IsTaken-erased flag connected q in
          subst (λ (z : PeerServer). IsTaken flag p z)
            (sym (
              forward_queue-taken w flag (toggled m) m' q p' idle ok lasts
                (rw e at (rw listed at (h)))))
            (record { sent_from = t.sent_from; other_queue = t.other_queue })
      | inr out ↦
          subst (λ (z : PeerServer). IsTaken flag p z)
            (same_of (send_to_server w m p) (toggled m) m' p p' (rw out refl) h)
            (record { sent_from = no_work flag p g idle out; other_queue = refl })
    ]

-- The callbacks of writes that were successful leave the status.
after_each-status :
    (now : ℕ) (fs : List Forwarding) (m m' : PeerManager) (p p' : PeerServer)
    → after_each_forwarding true now fs m p ≡ some (m', p')
    → p'.status ≡ p.status
unfolding after_each_forwarding after_sending_response after_sending_peer_servers_responses
    count_forwarding increase_forwarded_responses_count server_back_to_sets
after_each-status now [] m m' p p' h = ground (arith, h)
after_each-status now (f ∷ fs) m m' p p' h =
    let m1 : PeerManager = record m { stat = count_forwarded f.response m.stat } in
    let p1 = server_back_to_sets (increase_forwarded_responses_count now p) in
    ground (arith, after_each-status now fs m1 m' p1 p')

pub after_forwarding-status :
    (now : ℕ) (m m' : PeerManager) (p p' : PeerServer)
    → after_forwarding false true now m p ≡ some (m', p')
    → p'.status ≡ p.status
unfolding after_forwarding
after_forwarding-status now m m' p p' h =
    elim (Option-cases (after_each_forwarding true now p.responses_being_sent m p)) [
      | inl n ↦ absurd (ground (arith, n, h))
      | inr ((m1, p1), e) ↦
          ground (arith, e, h, after_each-status now p.responses_being_sent m m1 p p1 e)
    ]
