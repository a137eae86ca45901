-- ===== src/Detector/Health.antt =====
-- `FailureDetector` of tugas-3/src/communication/failure_detector.py: the state of each peer. Times
-- are clock ticks; a callback is the peer that it is called for.
use sistem_paralel_terdistri.Common.{
  Bool, Dict, List, [], false, if◌then◌else◌, insert, leb, lookup, ltb, none, not, some, true, ℕ,
  ◌+◌, ◌-◌, ◌||◌, ◌∷◌,
}

pub data NodeStatus : Type 0 where
  alive suspected dead unknown : NodeStatus

-- `a == b` on statuses.
abbrev pub is_status : NodeStatus → NodeStatus → Bool
is_status alive alive = true
is_status suspected suspected = true
is_status dead dead = true
is_status unknown unknown = true
is_status a b = false

pub record NodeHealth : Type 0 where
  pub status : NodeStatus
  pub last_heartbeat : ℕ
  pub missed_heartbeats : ℕ
  pub latency_ms : ℕ

pub record FailureDetector : Type 0 where
  pub peers : List ℕ
  pub timeout : ℕ
  pub max_missed : ℕ
  pub health : Dict NodeHealth

-- `record_heartbeat` for a known peer; true where the recovery callbacks are called.
unfoldable pub hear : ℕ → ℕ → NodeHealth → NodeHealth × Bool
hear now latency h = (
  record { status = alive; last_heartbeat = now; missed_heartbeats = 0; latency_ms = latency },
  is_status h.status suspected || is_status h.status dead,
)

-- `record_heartbeat`; the phi detector keeps its own estimate.
unfoldable pub record_heartbeat : ℕ → ℕ → ℕ → FailureDetector → FailureDetector × Bool
record_heartbeat now peer latency d = elim (lookup peer d.health) [
  | none ↦ (d, false)
  | some h ↦
      (record d { health = insert peer (hear now latency h).0 d.health }, (hear now latency h).1)
]

-- One peer in a round of `_check_loop`; true where the failure callbacks are called.
unfoldable pub check_peer : ℕ → ℕ → ℕ → NodeHealth → NodeHealth × Bool
check_peer timeout max_missed now h =
    let h' : NodeHealth = record h { missed_heartbeats = h.missed_heartbeats + 1 } in
    if ltb timeout (now - h.last_heartbeat)
    then if leb max_missed h'.missed_heartbeats
      then (record h' { status = dead }, not (is_status h.status dead))
      else if is_status h.status alive
      then (record h' { status = suspected }, false)
      else (h', false)
    else (h, false)

-- The loop over the peers: the new states, and the peers that were declared dead.
unfoldable pub check_each : ℕ → ℕ → ℕ → Dict NodeHealth → Dict NodeHealth × List ℕ
check_each timeout max_missed now [] = ([], [])
check_each timeout max_missed now ((p, h) ∷ d) =
    let (h', failed) = check_peer timeout max_missed now h in
    let (d', fs) = check_each timeout max_missed now d in
    ((p, h') ∷ d', if failed then p ∷ fs else fs)

-- One round of `_check_loop`.
unfoldable pub check_round : ℕ → FailureDetector → FailureDetector × List ℕ
check_round now d =
    let (health, failed) = check_each d.timeout d.max_missed now d.health in
    (record d { health = health }, failed)

-- `get_status`
abbrev pub get_status : ℕ → FailureDetector → NodeStatus
get_status peer d = elim (lookup peer d.health) [ none ↦ unknown | some h ↦ h.status ]

-- The peers with a status, in the order of `peers`.
unfoldable pub with_status : NodeStatus → FailureDetector → List ℕ → List ℕ
with_status s d [] = []
with_status s d (p ∷ ps) =
    let rest = with_status s d ps in if is_status (get_status p d) s then p ∷ rest else rest

abbrev pub get_alive_nodes : FailureDetector → List ℕ
get_alive_nodes d = with_status alive d d.peers

abbrev pub get_dead_nodes : FailureDetector → List ℕ
get_dead_nodes d = with_status dead d d.peers
