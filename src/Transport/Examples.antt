-- ===== src/Transport/Examples.antt =====
-- One thread with numbers as payloads: sockets replaced, a bounded history, a late connection.
use shopping_agent.Common.{
  ℕ, ◌≡◌, refl, Bool, true, false, none, List, [], ◌∷◌, last_n, if◌then◌else◌,
}
use shopping_agent.Transport.{
  Transport, fresh, Event, connected, sent_event, cleared, discarding, connect, discard, history,
  run,
}
use shopping_agent.Transport.History.{published, history-run}
use shopping_agent.Transport.Replay.{IsWelcomed, connect-IsWelcomed}
use shopping_agent.Transport.Discarded.{IsSilent, discard-run-IsSilent, connect-stale}

abbrev always : ℕ → Bool
always n = true

abbrev publishing : List (Event ℕ)
publishing =
    sent_event 1 true ∷ sent_event 2 true ∷ connected 0 7 none always ∷ sent_event 3 false ∷ []

abbrev two_kept : Transport ℕ
two_kept = record fresh { events = 2 ∷ 3 ∷ []; sent = (7, 1) ∷ (7, 2) ∷ [] }

failed_socket_dropped : run 2 publishing fresh ≡ two_kept
unfolding run
failed_socket_dropped = refl

history-run_example : history (run 2 publishing fresh) ≡ (
    if (published publishing (false, [])).0
    then []
    else last_n 2 (published publishing (false, [])).1)
history-run_example = history-run 2 publishing

connect-IsWelcomed_example : IsWelcomed 0 8 none two_kept (connect 0 8 none always two_kept).0
unfolding connect
connect-IsWelcomed_example = connect-IsWelcomed 0 8 none always two_kept refl

discard-run-IsSilent_example :
    IsSilent two_kept.sent
      (run 2 (connected 1 9 none always ∷ sent_event 4 true ∷ []) (discard two_kept))
discard-run-IsSilent_example =
    discard-run-IsSilent 2 two_kept (connected 1 9 none always ∷ sent_event 4 true ∷ []) refl

connect-stale_example :
    let u = run 2 (discarding ∷ cleared false ∷ []) two_kept in
    let result = connect two_kept.generation 9 none always u in
    (result.1 ≡ false) × (result.0.active ≡ u.active) × (result.0.sent ≡ u.sent)
connect-stale_example =
    connect-stale 2 two_kept (discarding ∷ cleared false ∷ []) 9 none always refl
