-- ===== src/Detector/Tests.antt =====
-- A peer that falls silent, and one that comes back.
use sistem_paralel_terdistri.Common.{[], refl, true, ◌∷◌, ◌≡◌}
use sistem_paralel_terdistri.Detector.Health.{
  FailureDetector, NodeHealth, alive, check_each, check_peer, check_round, get_alive_nodes,
  get_dead_nodes, get_status, hear, record_heartbeat, suspected, with_status,
}
use sistem_paralel_terdistri.Detector.Silence.{check_rounds}

-- What runs.
program : Unit {0}
unfolding hear record_heartbeat check_peer check_each check_round check_rounds
program = tt

abbrev known : NodeHealth
known = record { status = alive; last_heartbeat = 10; missed_heartbeats = 0; latency_ms = 1 }

abbrev detector : FailureDetector
detector = record {
  peers = 4 ∷ 5 ∷ [];
  timeout = 20;
  max_missed = 2;
  health = (4, known) ∷ (5, record known { last_heartbeat = 35 }) ∷ [];
}

suspected_first : get_status 4 (check_round 40 detector).0 ≡ suspected
unfolding program
suspected_first = refl

dead_then : (check_round 50 (check_round 40 detector).0).1 ≡ 4 ∷ []
unfolding program
dead_then = refl

recovers : (record_heartbeat 60 4 1 (check_round 40 detector).0).1 ≡ true
unfolding program
recovers = refl

one_dead :
    let d = (check_round 50 (check_round 40 detector).0).0 in
    (get_dead_nodes d ≡ 4 ∷ []) × (get_alive_nodes d ≡ 5 ∷ [])
unfolding program with_status
one_dead = (refl, refl)
