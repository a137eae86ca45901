-- ===== src/Detector/Silence.antt =====
-- A silent peer in tugas-3/src/communication/failure_detector.py.
use sistem_paralel_terdistri.Common.{All, List, [], if◌then◌else◌, ℕ, ◌+◌, ◌-◌, ◌<◌, ◌∷◌}
use sistem_paralel_terdistri.Detector.Health.{NodeHealth, check_peer}

-- The rounds of the check loop for one peer, and the number of its failure callbacks.
unfoldable pub check_rounds : ℕ → ℕ → List ℕ → NodeHealth → NodeHealth × ℕ
check_rounds timeout max_missed [] h = (h, 0)
check_rounds timeout max_missed (now ∷ ts) h =
    let (h1, failed) = check_peer timeout max_missed now h in
    let (h2, n) = check_rounds timeout max_missed ts h1 in (h2, if failed then n + 1 else n)

-- Every round finds the peer's last heartbeat too old.
abbrev pub Late : ℕ → NodeHealth → List ℕ → Type 0
Late timeout h ts = All (λ now. timeout < now - h.last_heartbeat) ts
