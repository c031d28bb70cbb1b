-- ===== src/Shutdown/Order.antt =====
-- In which order the server closes down: `DoPeriodicActivities` of Pulsar/src/ConnectionsManager.cpp.
use pulsar_server_framework.Prelude.{
  ◌≡◌, ap, ◌∙◌, sym, List, [], ◌∷◌, ◌++◌, true, not, ◌==◌, if◌then◌else◌, arith, ◌≢◌,
}
use mathlib.Core.List.{append-nil, append_assoc}
use pulsar_server_framework.Shutdown.{
  Closing, nothing_closed, Surroundings, Action, delete_request_processors, close_all_connections,
  close_stdin, are_clients_gone, is_output_stopped, close_down,
}

-- The runs of DoPeriodicActivities, one after the other, and all that they do.
pub close_down_all : List Surroundings → Closing → Closing × List Action
close_down_all [] c = (c, [])
close_down_all (s ∷ ss) c =
    let (c1, done) = close_down s c in let (c2, rest) = close_down_all ss c1 in (c2, done ++ rest)

-- The flags are set one after the other.
pub record IsOrdered (c : Closing) : Type 0 where
  pub connections_later :
      c.connections_disconnected_and_closed ≡ true → c.request_processors_deleted ≡ true
  pub stdin_later : c.stdin_close_initiated ≡ true → c.connections_disconnected_and_closed ≡ true

-- What was done by the time that the flags are these.
abbrev pub done_until : Closing → List Action
done_until c =
    if c.stdin_close_initiated
    then delete_request_processors ∷ close_all_connections ∷ close_stdin ∷ []
    else if c.connections_disconnected_and_closed
    then delete_request_processors ∷ close_all_connections ∷ []
    else if c.request_processors_deleted
    then delete_request_processors ∷ []
    else []

close_down-IsOrdered :
    (s : Surroundings) (c : Closing)
    → IsOrdered c
    → IsOrdered (close_down s c).0
      × (done_until (close_down s c).0 ≡ done_until c ++ (close_down s c).1)
unfolding close_down
close_down-IsOrdered s c h = ground (arith, h.connections_later, h.stdin_later)

-- What lets the server close down.
pub record IsQuiet (s : Surroundings) : Type 0 where
  pub gone : are_clients_gone s ≡ true
  pub no_processors : (s.active_processors == 0) ≡ true
  pub output_stopped : is_output_stopped s ≡ true

-- What a run does waits for what it needs.
pub record IsGuarded (s : Surroundings) (done : List Action) : Type 0 where
  pub clients_first : done ≢ [] → are_clients_gone s ≡ true
  pub processors_first : done ≡ close_all_connections ∷ [] → (s.active_processors == 0) ≡ true
  pub output_first : done ≡ close_stdin ∷ [] → is_output_stopped s ≡ true

close_down-IsGuarded : (s : Surroundings) (c : Closing) → IsGuarded s (close_down s c).1
unfolding close_down
close_down-IsGuarded s c = ground arith

abbrev pub AllGuarded : List Surroundings → Closing → Type 0
AllGuarded [] c = Unit
AllGuarded (s ∷ ss) c = IsGuarded s (close_down s c).1 × AllGuarded ss (close_down s c).0

close_down_all-IsOrdered :
    (ss : List Surroundings) (c : Closing)
    → IsOrdered c
    → (done_until (close_down_all ss c).0 ≡ done_until c ++ (close_down_all ss c).1)
      × AllGuarded ss c
unfolding close_down_all
close_down_all-IsOrdered [] c h = (sym (append-nil (done_until c)), tt)
close_down_all-IsOrdered (s ∷ ss) c h =
    let (h1, e1) = close_down-IsOrdered s c h in
    let (e2, g2) = close_down_all-IsOrdered ss (close_down s c).0 h1 in
    (
      e2
          ∙ (ap (λ (l : List Action). l ++ (close_down_all ss (close_down s c).0).1) e1
              ∙ append_assoc (done_until c) (close_down s c).1
                  (close_down_all ss (close_down s c).0).1),
      (close_down-IsGuarded s c, g2),
    )

nothing_closed-IsOrdered : IsOrdered nothing_closed
unfolding nothing_closed
nothing_closed-IsOrdered = record { connections_later = λ x. cc; stdin_later = λ x. cc }

-- In any sequence of runs of DoPeriodicActivities, whatever they find, the request processors are
-- deleted, then all connections are closed, then the keyboard: a step is never repeated or overtaken,
-- and it waits until all clients are gone, until no processor is active, and until peer servers, logger
-- and file writer have stopped.
pub close_down_all-in_order :
    (ss : List Surroundings)
    → ((close_down_all ss nothing_closed).1 ≡ done_until (close_down_all ss nothing_closed).0)
      × AllGuarded ss nothing_closed
unfolding nothing_closed
close_down_all-in_order ss =
    let (e, g) = close_down_all-IsOrdered ss nothing_closed nothing_closed-IsOrdered in (sym e, g)

-- The flags after a run that finds everything settled.
abbrev next_flags : Closing → Closing
next_flags c =
    if not c.request_processors_deleted
    then record c { request_processors_deleted = true }
    else if not c.connections_disconnected_and_closed
    then record c { connections_disconnected_and_closed = true }
    else record c { stdin_close_initiated = true }

settled_step : (s : Surroundings) (c : Closing) → IsQuiet s → (close_down s c).0 ≡ next_flags c
unfolding close_down
settled_step s c v = ground (arith, v.gone, v.no_processors, v.output_stopped)

three_steps :
    (c : Closing)
    → IsOrdered c
    → next_flags (next_flags (next_flags c)) ≡ record {
      request_processors_deleted = true;
      connections_disconnected_and_closed = true;
      stdin_close_initiated = true;
    }
three_steps c h = ground (arith, h.connections_later, h.stdin_later)

end-IsOrdered :
    (ss : List Surroundings) (c : Closing) → IsOrdered c → IsOrdered (close_down_all ss c).0
unfolding close_down_all
end-IsOrdered [] c h = h
end-IsOrdered (s ∷ ss) c h = end-IsOrdered ss (close_down s c).0 (close_down-IsOrdered s c h).0

-- From any state that runs of DoPeriodicActivities leave, three runs that find the clients gone, no
-- processor active and the output stopped bring the shutdown to its end.
pub close_down_all-ends :
    (ss : List Surroundings) (s1 s2 s3 : Surroundings)
    → IsQuiet s1
    → IsQuiet s2
    → IsQuiet s3
    → (close_down_all (s1 ∷ s2 ∷ s3 ∷ []) (close_down_all ss nothing_closed).0).0 ≡ record {
      request_processors_deleted = true;
      connections_disconnected_and_closed = true;
      stdin_close_initiated = true;
    }
unfolding close_down_all
close_down_all-ends ss s1 s2 s3 v1 v2 v3 =
    let c = (close_down_all ss nothing_closed).0 in
    let h = end-IsOrdered ss nothing_closed nothing_closed-IsOrdered in
    settled_step s3 (close_down s2 (close_down s1 c).0).0 v3
    ∙ (ap (λ (x : Closing). next_flags x) (settled_step s2 (close_down s1 c).0 v2)
        ∙ (ap (λ (x : Closing). next_flags (next_flags x)) (settled_step s1 c v1)
            ∙ three_steps c h))
