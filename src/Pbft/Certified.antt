-- ===== src/Pbft/Certified.antt =====
-- The commit certificate behind each call of `apply_callback`: tugas-3/src/consensus/pbft.py.
use sistem_paralel_terdistri.Common.{
  All, AllEntries, AllEntries-insert, AllEntries-lookup, Bool-cases, Distinct, Elem, List, Option,
  Option-cases, [], add, add-All, add-Distinct, ap, arith, false, inl, inr, insert, leb, length,
  lookup, lookup-insert_self, map_some, member, not, refl, some, subst, sym, true, ℕ, ◌&&◌, ◌*◌,
  ◌+◌, ◌-◌, ◌/◌, ◌==◌, ◌||◌, ◌∙◌, ◌∷◌, ◌≡◌, ◌≤◌, ◌⊎◌,
}
use sistem_paralel_terdistri.Pbft.Applied.{Event, receives}
use sistem_paralel_terdistri.Pbft.Node.{
  Effect, Message, Outcome, PbftLogEntry, PbftNode, PbftRequest, apply, call, commit, count_commit,
  count_prepare, entry_for, faults, is_primary, on_pre_prepare, pre_prepare, prepare, primary, send,
  send_all, submit,
}

-- The digest of the log entry for a sequence number.
abbrev pub digest_at : {O : Type 0} → PbftNode O → ℕ → Option ℕ
digest_at n seq = map_some (λ e. e.digest) (lookup seq n.log)

module _ {O : Type 0} (compute_digest : PbftRequest O → ℕ) (me : ℕ) (all : List ℕ)
    (history : List (Event O)) where
  -- The node itself, or the sender of a COMMIT for the digest that has arrived.
  abbrev pub HasVoted : ℕ → ℕ → ℕ → Type 0
  HasVoted seq digest w =
      (w ≡ me) ⊎ ((view : ℕ) × Elem (receives w (commit view seq digest)) history)

  pub record IsBacked (seq : ℕ) (e : PbftLogEntry O) : Type 0 where
    pub numbered : e.seq_num ≡ seq
    pub digested : e.digest ≡ compute_digest e.request
    pub distinct : Distinct e.commits
    pub votes : All (HasVoted seq e.digest) e.commits

  pub record IsSound (n : PbftNode O) : Type 0 where
    pub identity : n.node_id ≡ me
    pub nodes : n.all_nodes ≡ all
    pub entries : AllEntries IsBacked n.log

  -- 2f + 1 different nodes have voted for the digest of a request with the operation.
  abbrev pub IsCertified : ℕ → O → Type 0
  IsCertified seq op =
      (r : PbftRequest O) × (ws : List ℕ) × (r.operation ≡ op)
      × Distinct ws
      × All (HasVoted seq (compute_digest r)) ws
      × (2 * ((length all - 1) / 3) + 1 ≤ length ws)

  -- The same, and the log of the node has the digest.
  abbrev pub IsCertifiedAt : PbftNode O → ℕ → O → Type 0
  IsCertifiedAt n seq op =
      (r : PbftRequest O) × (ws : List ℕ) × (r.operation ≡ op)
      × Distinct ws
      × All (HasVoted seq (compute_digest r)) ws
      × (2 * ((length all - 1) / 3) + 1 ≤ length ws)
      × (digest_at n seq ≡ some (compute_digest r))

  -- What the node says is as its log is: its COMMIT messages, and the calls of the callback.
  abbrev pub Tells : PbftNode O → Effect O → Type 0
  Tells n (send p (pre_prepare view seq digest r)) = Unit
  Tells n (send p (prepare view seq digest)) = Unit
  Tells n (send p (commit view seq digest)) = digest_at n seq ≡ some digest
  Tells n (call seq op) = IsCertifiedAt n seq op

  pub record IsProper (o : Outcome O) : Type 0 where
    pub sound : IsSound o.0
    pub tells : All (Tells o.0) o.1

  sends-tell :
      (n : PbftNode O) (make : ℕ → Message O) (ps : List ℕ)
      → ((p : ℕ) → Tells n (send p (make p)))
      → All (Tells n) (send_all make ps)
  sends-tell n make [] h = tt
  sends-tell n make (p ∷ ps) h = (h p, sends-tell n make ps h)

  pub same-IsProper : (n : PbftNode O) → IsSound n → IsProper (n, [])
  same-IsProper n h = record { sound = h; tells = tt }

  -- An entry is replaced by one that is backed.
  log-IsSound :
      (seq : ℕ) (e : PbftLogEntry O) (n : PbftNode O)
      → IsBacked seq e
      → IsSound n
      → IsSound (record n { log = insert seq e n.log })
  log-IsSound seq e n b h = record {
    identity = h.identity;
    nodes = h.nodes;
    entries = AllEntries-insert IsBacked seq e n.log b h.entries;
  }

  pub submit-IsProper :
      (malicious : ℕ → ℕ) (r : PbftRequest O) (n : PbftNode O)
      → IsSound n
      → IsProper (submit compute_digest malicious r n).0
  unfolding submit
  submit-IsProper malicious r n h = elim (Bool-cases (is_primary n)) [
    | inl e ↦
        rw (e, submit)
          (record {
            sound = record {
              identity = h.identity;
              nodes = h.nodes;
              entries =
                  AllEntries-insert IsBacked (n.seq_num + 1) _ n.log
                    (record { numbered = refl; digested = refl; distinct = tt; votes = tt })
                    h.entries;
            };
            tells =
                sends-tell
                  (record n {
                    seq_num = n.seq_num + 1;
                    log =
                        insert (n.seq_num + 1)
                          (record {
                            seq_num = n.seq_num + 1;
                            view = n.view;
                            request = r;
                            digest = compute_digest r;
                            pre_prepare_received = true;
                            prepares = [];
                            commits = [];
                            committed = false;
                          })
                          n.log;
                  })
                  _ n.peers (λ p. tt);
          })
    | inr e ↦ rw (e, submit) (same-IsProper n h)
  ]

  -- The entry of a PRE-PREPARE whose digest is right.
  entry_for-IsBacked :
      (view seq digest : ℕ) (r : PbftRequest O) (n : PbftNode O)
      → digest ≡ compute_digest r
      → IsSound n
      → IsBacked seq (entry_for view seq digest r n)
  entry_for-IsBacked view seq digest r n right h = elim (Option-cases (lookup seq n.log)) [
    | inl e ↦ rw e (record { numbered = refl; digested = right; distinct = tt; votes = tt })
    | inr (x, e) ↦ rw e (AllEntries-lookup IsBacked seq x n.log h.entries e)
  ]

  pub on_pre_prepare-IsProper :
      (sender view seq digest : ℕ) (r : PbftRequest O) (n : PbftNode O)
      → IsSound n
      → IsProper (on_pre_prepare compute_digest sender view seq digest r n)
  unfolding on_pre_prepare
  on_pre_prepare-IsProper sender view seq digest r n h =
      elim (Bool-cases
        (not (view == n.view) || (not (sender == primary n) || not (digest == compute_digest r)))) [
          | inl e ↦ rw (e, on_pre_prepare) (same-IsProper n h)
          | inr e ↦
              let right : digest ≡ compute_digest r = ground (arith, e) in
              let b = entry_for-IsBacked view seq digest r n right h in
              rw (e, on_pre_prepare)
                (record {
                  sound =
                      log-IsSound seq _ n
                        (record {
                          numbered = b.numbered;
                          digested = b.digested;
                          distinct = b.distinct;
                          votes = b.votes;
                        })
                        h;
                  tells =
                      sends-tell
                        (record n {
                          log =
                              insert seq
                                (record (entry_for view seq digest r n) {
                                  pre_prepare_received = true;
                                  prepares = add n.node_id (entry_for view seq digest r n).prepares;
                                })
                                n.log;
                        })
                        (λ p. prepare view seq digest) n.peers (λ p. tt);
                })
        ]

  pub count_prepare-IsProper :
      (sender seq : ℕ) (e : PbftLogEntry O) (n : PbftNode O)
      → IsBacked seq e
      → IsSound n
      → IsProper (count_prepare sender seq e n)
  unfolding count_prepare
  count_prepare-IsProper sender seq e n b h =
      elim (Bool-cases (
        e.pre_prepare_received
        && (leb (2 * faults n) (length (add sender e.prepares))
            && not (member sender e.commits)))) [
              | inl t ↦
                  rw (t, count_prepare)
                    (record {
                      sound =
                          log-IsSound seq _ n
                            (record {
                              numbered = b.numbered;
                              digested = b.digested;
                              distinct = add-Distinct n.node_id e.commits b.distinct;
                              votes =
                                  add-All (HasVoted seq e.digest) n.node_id e.commits
                                    (inl h.identity) b.votes;
                            })
                            h;
                      tells =
                          sends-tell
                            (record n {
                              log =
                                  insert seq
                                    (record e {
                                      prepares = add sender e.prepares;
                                      commits = add n.node_id e.commits;
                                    })
                                    n.log;
                            })
                            (λ p. commit n.view seq e.digest) n.peers
                            (λ p. rw lookup-insert_self refl);
                    })
              | inr t ↦
                  rw (t, count_prepare)
                    (record {
                      sound =
                          log-IsSound seq _ n
                            (record {
                              numbered = b.numbered;
                              digested = b.digested;
                              distinct = b.distinct;
                              votes = b.votes;
                            })
                            h;
                      tells = tt;
                    })
            ]

  apply-IsProper :
      (seq : ℕ) (e : PbftLogEntry O) (n : PbftNode O)
      → IsBacked seq e
      → 2 * ((length all - 1) / 3) + 1 ≤ length e.commits
      → digest_at n seq ≡ some e.digest
      → IsSound n
      → IsProper (apply e n)
  unfolding apply
  apply-IsProper seq e n b many logged h = elim (Bool-cases (member e.seq_num n.applied)) [
    | inl t ↦ rw (t, apply) (same-IsProper n h)
    | inr t ↦
        rw (t, apply)
          (record {
            sound = record { identity = h.identity; nodes = h.nodes; entries = h.entries };
            tells = (
              subst (λ s. IsCertifiedAt n s e.request.operation) (sym b.numbered)
                  (
                    e.request,
                    e.commits,
                    refl,
                    b.distinct,
                    subst (λ d. All (HasVoted seq d) e.commits) b.digested b.votes,
                    many,
                    logged ∙ ap some b.digested,
                  ),
              tt,
            );
          })
  ]

  pub count_commit-IsProper :
      (sender view seq : ℕ) (e : PbftLogEntry O) (n : PbftNode O)
      → Elem (receives sender (commit view seq e.digest)) history
      → IsBacked seq e
      → IsSound n
      → IsProper (count_commit sender seq e n)
  unfolding count_commit
  count_commit-IsProper sender view seq e n heard b h =
      let e' = record e { commits = add sender e.commits } in
      let b' : IsBacked seq e' = record {
        numbered = b.numbered;
        digested = b.digested;
        distinct = add-Distinct sender e.commits b.distinct;
        votes = add-All (HasVoted seq e.digest) sender e.commits (inr (view, heard)) b.votes;
      } in
      elim (Bool-cases
        (leb (2 * faults n + 1) (length (add sender e.commits)) && not e.committed)) [
          | inl t ↦
              let enough : 2 * faults n + 1 ≤ length (add sender e.commits) = ground (arith, t) in
              let many : 2 * ((length all - 1) / 3) + 1 ≤ length (add sender e.commits) =
                subst (λ l. 2 * ((length l - 1) / 3) + 1 ≤ length (add sender e.commits)) h.nodes
                  enough in
              rw (t, count_commit)
                (apply-IsProper seq e' _ b' many (rw lookup-insert_self refl) (
                  log-IsSound seq _ n
                    (record {
                      numbered = b'.numbered;
                      digested = b'.digested;
                      distinct = b'.distinct;
                      votes = b'.votes;
                    })
                    h))
          | inr t ↦ rw (t, count_commit) (record { sound = log-IsSound seq e' n b' h; tells = tt })
        ]
