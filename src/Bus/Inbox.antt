-- ===== src/Bus/Inbox.antt =====
-- The queue of a node under `put_nowait`, `send`, `broadcast` and `get`: tugas-3/src/communication/message_passing.py.
use sistem_paralel_terdistri.Common.{
  Bool-cases, Dict, List, [], ap, append-nil, append_assoc, arith, contains, false, get_or,
  if◌then◌else◌, inl, inr, insert, length, length-append, lookup, lookup-insert, ltb, ltb→lt,
  member, not, refl, subst, sym, ℕ, ◌&&◌, ◌++◌, ◌<◌, ◌==◌, ◌||◌, ◌∙◌, ◌∷◌, ◌≡◌, ◌≤◌,
}
use sistem_paralel_terdistri.Bus.Message.{Message}
use sistem_paralel_terdistri.Bus.State.{
  Event, MessageBus, accepted, called, copy_for, do_broadcast, do_send, maxsize, put_nowait,
  received, sent_events,
}

pub inbox-insert :
    {P : Type 0} (n k : ℕ) (ms : List (Message P)) (d : Dict (List (Message P)))
    → get_or (lookup n (insert k ms d)) [] ≡ (if k == n then ms else get_or (lookup n d) [])
inbox-insert n k ms d = ground (arith, lookup-insert n k ms d)

pub absent_lookup :
    {P : Type 0} (k : ℕ) (d : Dict (List P)) → contains k d ≡ false → get_or (lookup k d) [] ≡ []
absent_lookup k [] e = refl
absent_lookup k ((j, v) ∷ d) e = ground (arith, e, absent_lookup k d)

module _ {P H : Type 0} where
  -- The queue of a node.
  abbrev pub inbox : ℕ → MessageBus P H → List (Message P)
  inbox n b = get_or (lookup n b.channels) []

  -- The messages that the queue of a node took, and those that the node got, in order.
  abbrev pub accepted_for : ℕ → List (Event P H) → List (Message P)
  accepted_for n [] = []
  accepted_for n (accepted m ∷ es) =
      if m.receiver_id == n then m ∷ accepted_for n es else accepted_for n es
  accepted_for n (received k m ∷ es) = accepted_for n es
  accepted_for n (called h m ∷ es) = accepted_for n es

  abbrev pub received_by : ℕ → List (Event P H) → List (Message P)
  received_by n [] = []
  received_by n (accepted m ∷ es) = received_by n es
  received_by n (received k m ∷ es) = if k == n then m ∷ received_by n es else received_by n es
  received_by n (called h m ∷ es) = received_by n es

  accepted_for-append :
      (n : ℕ) (es fs : List (Event P H))
      → accepted_for n (es ++ fs) ≡ accepted_for n es ++ accepted_for n fs
  accepted_for-append n [] fs = refl
  accepted_for-append n (accepted m ∷ es) fs = ground (arith, accepted_for-append n es fs)
  accepted_for-append n (received k m ∷ es) fs = accepted_for-append n es fs
  accepted_for-append n (called h m ∷ es) fs = accepted_for-append n es fs

  received_by-append :
      (n : ℕ) (es fs : List (Event P H))
      → received_by n (es ++ fs) ≡ received_by n es ++ received_by n fs
  received_by-append n [] fs = refl
  received_by-append n (accepted m ∷ es) fs = received_by-append n es fs
  received_by-append n (received k m ∷ es) fs = ground (arith, received_by-append n es fs)
  received_by-append n (called h m ∷ es) fs = received_by-append n es fs

  -- The queue of the node is first in, first out; and it is no longer than it may be.
  pub record Queues (n : ℕ) (b : MessageBus P H) (o : MessageBus P H × List (Event P H))
      : Type 0 where
    pub fifo : received_by n o.1 ++ inbox n o.0 ≡ inbox n b ++ accepted_for n o.1
    pub short : length (inbox n b) ≤ maxsize → length (inbox n o.0) ≤ maxsize

  pub still-Queues : (n : ℕ) (b b' : MessageBus P H) → inbox n b' ≡ inbox n b → Queues n b (b', [])
  still-Queues n b b' e = record {
    fifo = e ∙ sym (append-nil (inbox n b));
    short = λ h. subst (λ l. length l ≤ maxsize) (sym e) h;
  }

  -- One step after another.
  pub then-Queues :
      (n : ℕ) (b b1 b2 : MessageBus P H) (es fs : List (Event P H))
      → Queues n b (b1, es)
      → Queues n b1 (b2, fs)
      → Queues n b (b2, es ++ fs)
  then-Queues n b b1 b2 es fs p q = record {
    fifo =
        ap (λ l. l ++ inbox n b2) (received_by-append n es fs)
        ∙ append_assoc (received_by n es) (received_by n fs) (inbox n b2)
        ∙ ap (λ l. received_by n es ++ l) q.fifo
        ∙ sym (append_assoc (received_by n es) (inbox n b1) (accepted_for n fs))
        ∙ ap (λ l. l ++ accepted_for n fs) p.fifo
        ∙ append_assoc (inbox n b) (accepted_for n es) (accepted_for n fs)
        ∙ ap (λ l. inbox n b ++ l) (sym (accepted_for-append n es fs));
    short = λ h. q.short (p.short h);
  }

  accept-Queues :
      (n : ℕ) (m : Message P) (b : MessageBus P H)
      → length (inbox m.receiver_id b) < maxsize
      → Queues n b (
        record b { channels = insert m.receiver_id (inbox m.receiver_id b ++ m ∷ []) b.channels },
        accepted m ∷ [],
      )
  accept-Queues n m b lt = elim (Bool-cases (m.receiver_id == n)) [
    | inl q ↦
        let same : m.receiver_id ≡ n = ground arith in
        let ms = inbox m.receiver_id b ++ m ∷ [] in
        let e : get_or (lookup n (insert m.receiver_id ms b.channels)) [] ≡ ms =
          inbox-insert n m.receiver_id ms b.channels ∙ rw q refl in
        record {
          fifo = rw q (e ∙ ap (λ k. inbox k b ++ m ∷ []) same);
          short = λ h.
              subst (λ l. length l ≤ maxsize) (sym e)
                (omega (arith, length-append (inbox m.receiver_id b) (m ∷ []), lt));
        }
    | inr q ↦
        let ms = inbox m.receiver_id b ++ m ∷ [] in
        let e : get_or (lookup n (insert m.receiver_id ms b.channels)) [] ≡ inbox n b =
          inbox-insert n m.receiver_id ms b.channels ∙ rw q refl in
        record {
          fifo = rw q (e ∙ sym (append-nil (inbox n b)));
          short = λ h. subst (λ l. length l ≤ maxsize) (sym e) h;
        }
  ]

  put_nowait-Queues :
      (n : ℕ) (m : Message P) (b : MessageBus P H)
      → let o = put_nowait m b in Queues n b (o.0, sent_events o.1 m)
  unfolding put_nowait
  put_nowait-Queues n m b = elim (Bool-cases (ltb (length (inbox m.receiver_id b)) maxsize)) [
    | inl e ↦ rw e (accept-Queues n m b (ltb→lt (length (inbox m.receiver_id b)) maxsize e))
    | inr e ↦ rw e (still-Queues n b b refl)
  ]

  pub do_send-Queues :
      (n : ℕ) (m : Message P) (b : MessageBus P H)
      → let o = do_send m b in Queues n b (o.0, sent_events o.1 m)
  unfolding do_send
  do_send-Queues n m b =
      elim (Bool-cases (member m.sender_id b.partitions || member m.receiver_id b.partitions)) [
        | inl e ↦ rw e (still-Queues n b b refl)
        | inr e ↦ elim (Bool-cases (contains m.receiver_id b.channels)) [
          | inl f ↦ rw (e, f) (put_nowait-Queues n m b)
          | inr f ↦ rw (e, f) (still-Queues n b b refl)
        ]
      ]

  pub do_broadcast-Queues :
      (n : ℕ) (uuids : ℕ → ℕ) (m : Message P) (exclude nodes : List ℕ) (b : MessageBus P H)
      → Queues n b (do_broadcast uuids m exclude nodes b)
  unfolding do_broadcast
  do_broadcast-Queues n uuids m exclude [] b = still-Queues n b b refl
  do_broadcast-Queues n uuids m exclude (node ∷ nodes) b =
      let c = copy_for (uuids node) node m in
      let b' = (do_send c b).0 in
      elim (Bool-cases (not (node == m.sender_id) && not (member node exclude))) [
        | inl e ↦ rw e (
            then-Queues n b b' _ _ _ (do_send-Queues n c b)
              (do_broadcast-Queues n uuids m exclude nodes b'))
        | inr e ↦ rw e (do_broadcast-Queues n uuids m exclude nodes b)
      ]

  -- A node takes the head of its queue.
  pub take-Queues :
      (n k : ℕ) (m : Message P) (ms : List (Message P)) (b : MessageBus P H)
      → inbox k b ≡ m ∷ ms
      → Queues n b (record b { channels = insert k ms b.channels }, received k m ∷ [])
  take-Queues n k m ms b h =
      let e = inbox-insert n k ms b.channels in
      elim (Bool-cases (k == n)) [
        | inl q ↦
            let same : k ≡ n = ground arith in
            let f : get_or (lookup n (insert k ms b.channels)) [] ≡ ms = e ∙ rw q refl in
            let g : inbox n b ≡ m ∷ ms = subst (λ x. inbox x b ≡ m ∷ ms) same h in
            record {
              fifo = rw q (ap (◌∷◌ m) f ∙ sym g ∙ sym (append-nil (inbox n b)));
              short = λ l.
                  subst (λ x. length x ≤ maxsize) (sym f)
                    (let l' : length (m ∷ ms) ≤ maxsize = subst (λ x. length x ≤ maxsize) g l in
                      omega (arith, l'));
            }
        | inr q ↦
            let f : get_or (lookup n (insert k ms b.channels)) [] ≡ inbox n b = e ∙ rw q refl in
            record {
              fifo = rw q (f ∙ sym (append-nil (inbox n b)));
              short = λ l. subst (λ x. length x ≤ maxsize) (sym f) l;
            }
      ]
