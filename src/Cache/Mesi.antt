-- ===== src/Cache/Mesi.antt =====
-- The coherence states that two nodes of tugas-3/src/nodes/cache_node.py end in.
use sistem_paralel_terdistri.Cache.State.{MesiState, exclusive, invalid, modified, shared}

-- The state that the reader's copy gets from each state of the owner's line.
abbrev pub copied : MesiState → MesiState
copied modified = shared
copied shared = shared
copied exclusive = exclusive
copied invalid = invalid
