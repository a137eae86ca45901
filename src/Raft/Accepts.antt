-- ===== src/Raft/Accepts.antt =====
-- `_handle_append_entries` of tugas-3/src/consensus/raft.py keeps the node's standing.
use sistem_paralel_terdistri.Common.{
  All, Bool, Bool-cases, List, [], arith, false, inl, inr, ltb, min, refl, some, ℕ, ◌-◌, ◌∙◌, ◌∷◌,
  ◌≡◌,
}
use sistem_paralel_terdistri.Raft.Ballots.{Backed, Ballot, IsStanding, Keeps}
use sistem_paralel_terdistri.Raft.Cluster.{messages}
use sistem_paralel_terdistri.Raft.Handlers.{
  accept_entries, before_error, follow_commit, handle_append_entries, prev_ok, put_entries,
  see_term,
}
use sistem_paralel_terdistri.Raft.Node.{last_log_index}
use sistem_paralel_terdistri.Raft.Quiet.{same}
use sistem_paralel_terdistri.Raft.State.{
  Effect, LogEntry, RaftNode, append_response, follower, send,
}
use sistem_paralel_terdistri.Raft.Votes.{
  IsQuiet, Keeps-SameVote, apply_loop-SameVote, become_follower-Keeps, before_error-messages,
  follower-IsStanding,
}

module _ {C : Type 0} (members : List ℕ) (bs : List Ballot) (i : ℕ) where
  pub see_term-Keeps : (d t : ℕ) (n : RaftNode C) → Keeps n (see_term d t n)
  unfolding see_term
  see_term-Keeps d t n = elim (Bool-cases (ltb n.current_term t)) [
    | inl e ↦ rw e (become_follower-Keeps d t n)
    | inr e ↦ rw e (Keeps-SameVote n n (same members bs i n))
  ]

  -- From here on `n'` follows `n` as a follower.
  Follows : RaftNode C → RaftNode C → Type 0
  Follows n n' = Keeps n n' × (n'.state ≡ follower)

  follow_commit-Follows :
      (c : ℕ) (n n' : RaftNode C)
      → Follows n n'
      → Follows n (follow_commit c n').0 × (messages (follow_commit c n').1 ≡ [])
  unfolding follow_commit Follows messages
  follow_commit-Follows c n n' (k, e) = elim (Bool-cases (ltb n'.commit_index c)) [
    | inr p ↦ rw p ((k, e), refl)
    | inl p ↦
        let n'' : RaftNode C = record n' { commit_index = min c (last_log_index n') } in
        let (s, m) = apply_loop-SameVote (n''.commit_index - n''.last_applied) n'' in
        rw p (
          (
            record {
              same_id = s.same_id ∙ k.same_id;
              same_peers = s.same_peers ∙ k.same_peers;
              grows = omega (arith, k.grows, s.same_term);
              vote_stays = λ v q r. s.same_vote ∙ k.vote_stays v (omega (arith, s.same_term)) r;
            },
            s.same_state ∙ e,
          ),
          m,
        )
  ]

  accept_entries-Follows :
      (prev pt : ℕ) (es : List (LogEntry C)) (c : ℕ) (n n' : RaftNode C)
      → Follows n n'
      → let ((r, effects), _, _) = accept_entries prev pt es c n' in
        Follows n r × (messages effects ≡ [])
  unfolding accept_entries Follows messages
  accept_entries-Follows prev pt es c n n' (k, e) = elim (Bool-cases (prev_ok n' prev pt)) [
    | inl p ↦ rw p (
        follow_commit-Follows c n (record n' { log = put_entries prev es n'.log })
          (
            record {
              same_id = k.same_id;
              same_peers = k.same_peers;
              grows = k.grows;
              vote_stays = k.vote_stays;
            },
            e,
          ))
    | inr p ↦ rw p ((k, e), refl)
  ]

  reply-Backed :
      (to t : ℕ) (b : Bool) (m f : ℕ) (es : List (Effect C))
      → messages es ≡ []
      → All
          (Backed members bs)
          (messages (before_error es (send to (append_response t b m f) ∷ [])))
  unfolding messages
  reply-Backed to t b m f es h =
      elim (before_error-messages es (send to (append_response t b m f) ∷ []) h) [
        | inl e ↦ rw e tt
        | inr e ↦ rw e (tt, tt)
      ]

  pub handle_append_entries-IsQuiet :
      (d t l prev pt : ℕ) (es : List (LogEntry C)) (c : ℕ) (n : RaftNode C)
      → IsStanding members bs i n
      → IsQuiet members bs i n (handle_append_entries d t l prev pt es c n)
  unfolding handle_append_entries Follows messages
  handle_append_entries-IsQuiet d t l prev pt es c n h = elim (Bool-cases (ltb t n.current_term)) [
    | inl e ↦ rw e (record {
      keeps = Keeps-SameVote n n (same members bs i n);
      standing = h;
      backed = reply-Backed l n.current_term false 0 n.node_id [] refl;
    })
    | inr e ↦
        let n1 = see_term d t n in
        let k = see_term-Keeps d t n in
        let n' : RaftNode C = record n1 {
          state = follower;
          leader_id = some l;
          election_deadline = d;
        } in
        let ((k', f), m) = accept_entries-Follows prev pt es c n n' (
          record {
            same_id = k.same_id;
            same_peers = k.same_peers;
            grows = k.grows;
            vote_stays = k.vote_stays;
          },
          refl,
        ) in
        rw e (record {
          keeps = k';
          standing = follower-IsStanding members bs i n _ h k' f;
          backed = reply-Backed l _ _ _ _ _ m;
        })
  ]
