-- ===== src/Cache/Tests.antt =====
-- Two cache nodes: one that fills up, and one that reads the other's line.
use sistem_paralel_terdistri.Common.{
  All, Elem, List, [], arith, contains, erase, keys, length, member, refl, some, true, ℕ, ◌∷◌, ◌≡◌,
  ◌≤◌,
}
use sistem_paralel_terdistri.Cache.Node.{
  delete, evict_loop, fill, get, handle_fetch, handle_invalidate, handle_response, hit, miss, put,
  share,
}
use sistem_paralel_terdistri.Cache.Policy.{access, admit, evict, least, lfu, lru, remove, tracked}
use sistem_paralel_terdistri.Cache.Runs.{Call, cache_never_outgrows, gets, puts, run, run_all}
use sistem_paralel_terdistri.Cache.State.{CacheLine, CacheNode, exclusive, init}
use sistem_paralel_terdistri.Cache.Victims.{evict_least_used}

-- What runs.
program : Unit {0}
unfolding access admit remove least evict evict_loop hit miss get fill put delete share handle_fetch
    handle_response handle_invalidate run run_all
program = tt

abbrev empty : CacheNode ℕ
empty = init 1 (2 ∷ []) 2 (lru [])

abbrev calls : List (Call ℕ)
calls = puts 1 10 100 ∷ puts 2 20 200 ∷ gets 3 10 ∷ puts 4 30 300 ∷ []

-- The least recently used key goes.
evicted : keys (run_all calls empty).cache ≡ 10 ∷ 30 ∷ []
unfolding program
evicted = refl

written_back : (run_all calls empty).metrics.writebacks ≡ 1
unfolding program
written_back = refl

cache_never_outgrows_example :
    (length (run_all calls empty).cache ≤ 2)
    × ((x : ℕ)
        → contains x (run_all calls empty).cache ≡ true
        → member x (tracked (run_all calls empty).policy) ≡ true)
cache_never_outgrows_example = cache_never_outgrows 1 (2 ∷ []) 2 (lru []) calls (omega arith)

evict_least_used_example :
    (v c : ℕ) × (evict (lfu ((10, 3) ∷ (20, 1) ∷ (30, 2) ∷ []))
      ≡ some (v, lfu (erase v ((10, 3) ∷ (20, 1) ∷ (30, 2) ∷ []))))
    × Elem {A = ℕ × ℕ} (v, c) ((10, 3) ∷ (20, 1) ∷ (30, 2) ∷ [])
    × All {A = ℕ × ℕ} (λ e. c ≤ e.1) ((10, 3) ∷ (20, 1) ∷ (30, 2) ∷ [])
evict_least_used_example = evict_least_used 10 3 ((20, 1) ∷ (30, 2) ∷ [])

abbrev line : CacheLine ℕ
line = record {
  key = 10;
  value = 100;
  state = exclusive;
  version = 4;
  last_access = 1;
  access_count = 0;
}

abbrev owner : CacheNode ℕ
owner = record empty { cache = (10, line) ∷ [] }

abbrev reader : CacheNode ℕ
reader = record empty { node_id = 2; peers = 1 ∷ [] }
