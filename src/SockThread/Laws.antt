-- ===== src/SockThread/Laws.antt =====
-- What the receiving thread does over any events.
use si_daq_api.Base.{
  ℕ, ◌+◌, ◌≤◌, ◌≡◌, ◌≢◌, inl, inr, refl, sym, ap, ◌∙◌, Bool, true, false, List, [], ◌∷◌, ◌++◌,
  append_assoc, append-nil, arith, done, Returns, returns, Returns-bind, Returns-mono,
  if◌then◌else◌, length, length-append, Bool-cases,
}
use si_daq_api.SockThread.{
  would_block, is_allowed_error, Received, bytes, closed, failed, Pass, Thread, drop_socket,
  after_put, receive, recv_pass, recv_passes,
}
use si_daq_api.Framer.{list_put}

-- The bytes that the passes hand over, where no pass pauses.
abbrev pub IsQuiet : List Pass → Type 0
IsQuiet [] = Unit {0}
IsQuiet (p ∷ ps) = (p.pause ≡ false) × (p.answer ≡ failed would_block) × IsQuiet ps

-- While the device sends nothing and no pass pauses, the receive loop goes on however often the
-- run flag is false, and keeps its socket and the queue.
pub recv_passes_quiet :
    (ps : List Pass) (t : Thread (List (List ℕ)))
    → IsQuiet ps
    → (t' : Thread (List (List ℕ))) × (recv_passes list_put ps t ≡ done (false, t'))
      × (t'.socket ≡ t.socket)
      × (t'.queue ≡ t.queue)
unfolding recv_passes recv_pass receive is_allowed_error
recv_passes_quiet [] t h = (t, refl, refl, refl)
recv_passes_quiet (p ∷ ps) t (np, e, h) =
    let (t', eq, s, q) =
      recv_passes_quiet ps
        (record t { param = record t.param { run = p.run; pause_flg = p.pause } }) h in
    (t', ground (arith, eq), s, q)

-- The blocks that a pass puts into the queue.
unfoldable pub offered : Pass → List (List ℕ)
offered p =
    if p.pause
    then []
    else elim p.answer [ bytes block ↦ block ∷ [] | closed e ↦ [] | failed e ↦ [] ]

unfoldable pub all_offered : List Pass → List (List ℕ)
all_offered [] = []
all_offered (p ∷ ps) = offered p ++ all_offered ps

pub record PassOk (p : Pass) (t : Thread (List (List ℕ))) (r : Bool × Thread (List (List ℕ)))
    : Type 0 where
  pub queue : r.1.queue ≡ t.queue ++ offered p
  limit : r.1.param.queue_limit ≡ t.param.queue_limit
  pub buffer : r.1.param.recv_buf_size ≡ t.param.recv_buf_size
  bound :
      t.param.queue_limit ≢ 0
      → length t.queue ≤ t.param.queue_limit
      → length r.1.queue ≤ t.param.queue_limit + 1
  within :
      t.param.queue_limit ≢ 0
      → length t.queue ≤ t.param.queue_limit
      → r.0 ≡ false
      → length r.1.queue ≤ t.param.queue_limit

abbrev seen : Pass → Thread (List (List ℕ)) → Thread (List (List ℕ))
seen p t = record t { param = record t.param { run = p.run; pause_flg = p.pause } }

receive-PassOk :
    (run : Bool) (answer : Received) (t : Thread (List (List ℕ)))
    → let p : Pass = record { run = run; pause = false; answer = answer } in
      Returns (PassOk p t) (receive list_put answer (seen p t))
unfolding receive after_put drop_socket offered is_allowed_error
receive-PassOk run (bytes block) t = returns (record {
  queue = ground arith;
  limit = ground arith;
  buffer = ground arith;
  bound = λ n h. ground (arith, length-append t.queue (block ∷ []));
  within = λ n h e. ground (arith, length-append t.queue (block ∷ []));
})
receive-PassOk run (closed e) t = returns (record {
  queue = sym (append-nil t.queue);
  limit = refl;
  buffer = refl;
  bound = λ n h. omega arith;
  within = λ n h e. h;
})
receive-PassOk run (failed e) t = elim (Bool-cases (is_allowed_error e)) [
  | inl a ↦ rw a (
      returns (record {
        queue = sym (append-nil t.queue);
        limit = refl;
        buffer = refl;
        bound = λ n h. omega arith;
        within = λ n h e. h;
      }))
  | inr a ↦ rw a (
      returns (record {
        queue = sym (append-nil t.queue);
        limit = refl;
        buffer = refl;
        bound = λ n h. omega arith;
        within = λ n h e. h;
      }))
]

pub recv_pass-PassOk :
    (p : Pass) (t : Thread (List (List ℕ))) → Returns (PassOk p t) (recv_pass list_put p t)
unfolding recv_pass offered
recv_pass-PassOk p t = elim (Bool-cases p.pause) [
  | inl e ↦ rw e (
      returns (record {
        queue = sym (append-nil t.queue);
        limit = refl;
        buffer = refl;
        bound = λ n h. omega arith;
        within = λ n h e. h;
      }))
  | inr e ↦ rw e (receive-PassOk p.run p.answer t)
]

-- What a run of passes leaves: the blocks up to a break are in the queue, in order.
pub record PassesOk (ps : List Pass) (t : Thread (List (List ℕ)))
    (r : Bool × Thread (List (List ℕ))) : Type 0 where
  pub taken : List (List ℕ)
  pub missed : List (List ℕ)
  pub queue : r.1.queue ≡ t.queue ++ taken
  pub blocks : taken ++ missed ≡ all_offered ps
  pub all_taken : r.0 ≡ false → missed ≡ []
  pub bound :
      t.param.queue_limit ≢ 0
      → length t.queue ≤ t.param.queue_limit
      → length r.1.queue ≤ t.param.queue_limit + 1

passes_go :
    (p : Pass) (ps : List Pass) (t : Thread (List (List ℕ)))
    → ((t' : Thread (List (List ℕ))) → Returns (PassesOk ps t') (recv_passes list_put ps t'))
    → (b : Bool) (t' : Thread (List (List ℕ))) → PassOk p t (b, t')
    → Returns
        (PassesOk (p ∷ ps) t)
        (elim b [ true ↦ done (true, t') | false ↦ recv_passes list_put ps t' ])
unfolding all_offered
passes_go p ps t ih true t' k = returns (record {
  taken = offered p;
  missed = all_offered ps;
  queue = k.queue;
  blocks = refl;
  all_taken = λ e. cc;
  bound = k.bound;
})
passes_go p ps t ih false t' k = Returns-mono (ih t') λ r g. record {
  taken = offered p ++ g.taken;
  missed = g.missed;
  queue = g.queue ∙ ap (λ q. q ++ g.taken) k.queue ∙ append_assoc t.queue (offered p) g.taken;
  blocks = append_assoc (offered p) g.taken g.missed ∙ ap (◌++◌ (offered p)) g.blocks;
  all_taken = g.all_taken;
  bound = λ n h. ground (arith, k.limit, k.within n h refl, g.bound);
}

-- The receive loop puts blocks of its passes into the queue, in order, each once: all of them
-- unless it breaks, and then the first ones. If the queue is within its limit at first, it never
-- exceeds it by more than one entry.
pub recv_passes-PassesOk :
    (ps : List Pass) (t : Thread (List (List ℕ)))
    → Returns (PassesOk ps t) (recv_passes list_put ps t)
unfolding recv_passes all_offered
recv_passes-PassesOk [] t = returns (record {
  taken = [];
  missed = [];
  queue = sym (append-nil t.queue);
  blocks = refl;
  all_taken = λ e. refl;
  bound = λ n h. omega arith;
})
recv_passes-PassesOk (p ∷ ps) t =
    Returns-bind (recv_pass-PassOk p t)
      λ (b, t') k. passes_go p ps t (recv_passes-PassesOk ps) b t' k
