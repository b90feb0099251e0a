-- ===== src/Thpool/Invariant/Moves.antt =====
-- A step of one thread of src/util/thpool.c keeps the invariant of the pool.
use nowra.Base.{
  ℕ, ◌+◌, ◌≤◌, ◌<◌, ◌≡◌, refl, sym, ap, subst, ◌∙◌, ◌⊎◌, inl, inr, true, [], ◌∷◌, ◌++◌, arith,
  length, weight, weight-append,
}
use nowra.Thpool.{Job}
use nowra.Thpool.Family.{update, total, total-update, total-member}
use nowra.Thpool.Worker.{
  Shared, Pc, at_top, waiting, woken, counting, finished, leaving, Move, start, stay, stop, wait,
  go_on, skip, count, pull, run, uncount, leave, unlock,
}
use nowra.Thpool.Invariant.{Inv, is_live, is_working, is_awake, is_created, is_gone, in_hand}
use nowra.Thpool.Invariant.Queue.{pull-first}
use nowra.Vstring.Bytes.{append_assoc}

-- What a sum over the threads is when thread `i` goes from `p` to `p'`.
changed :
    (w : Pc → ℕ) (n : ℕ) (pc : ℕ → Pc) (i : ℕ) (p p' : Pc)
    → i < n
    → pc i ≡ p
    → w p + total w n (update pc i p') ≡ w p' + total w n pc
changed w n pc i p p' lt here =
    ap (λ q. w q + total w n (update pc i p')) (sym here) ∙ total-update w n pc i p' lt

member : (w : Pc → ℕ) (n : ℕ) (pc : ℕ → Pc) (i : ℕ) (p : Pc) → i < n → pc i ≡ p → w p ≤ total w n pc
member w n pc i p lt here = subst (λ q. w q ≤ total w n pc) here (total-member w n pc i lt)

-- The effect of a step on the memory, of a thread that goes from `p` to `p'`, weighed against the thread.
record Effect (m m' : Shared) (p p' : Pc) : Type 0 where
  counted : m'.pool.len ≡ length m'.pool.queue
  in_order : m'.log.pulled ++ (m'.pool.queue ++ m'.log.dropped) ≡ m'.log.added
  hand :
      (w : Job → ℕ)
      → weight w m'.log.ran + in_hand w p' + weight w m.log.pulled
        ≡ weight w m.log.ran + in_hand w p + weight w m'.log.pulled
  live : m'.pool.num_threads_alive + is_live p ≡ m.pool.num_threads_alive + is_live p'
  working : m'.pool.num_threads_working + is_working p ≡ m.pool.num_threads_working + is_working p'
  awake :
      0 < m'.pool.len
      → m'.pool.keepalive ≡ true
      → (m'.pool.v ≡ 1)
        ⊎ (0 < is_awake p')
        ⊎ ((m'.pool.v ≡ m.pool.v) × (m'.pool.len ≡ m.pool.len) × (is_awake p ≤ is_awake p'))
  same : m'.pool.keepalive ≡ m.pool.keepalive
  gone : m'.pool.keepalive ≡ true → is_gone p' ≤ is_gone p

Effect-Inv :
    {n : ℕ} {m m' : Shared} {pc : ℕ → Pc} {p p' : Pc} (i : ℕ)
    → i < n
    → pc i ≡ p
    → Effect m m' p p'
    → Inv n m pc
    → Inv n m' (update pc i p')
Effect-Inv {n} {m} {m'} {pc} {p} {p'} i lt here e inv =
    let change : (w : Pc → ℕ) → w p + total w n (update pc i p') ≡ w p' + total w n pc =
      λ w. changed w n pc i p p' lt here in
    record {
      counted = e.counted;
      in_order = e.in_order;
      once = λ w. omega (arith, inv.once w, change (in_hand w), e.hand w);
      live = omega (arith, inv.live, change is_live, e.live);
      working = omega (arith, inv.working, change is_working, e.working);
      awake = λ more keep. elim (e.awake more keep) [
        | inl posted ↦ inl posted
        | inr (inl now) ↦
            inr (omega (arith, now, change is_awake, member is_awake n pc i p lt here))
        | inr (inr (v, len, grows)) ↦
            elim (inv.awake (omega (arith, more, len)) (sym e.same ∙ keep)) [
              | inl posted ↦ inl (v ∙ posted)
              | inr some_awake ↦ inr (omega (arith, some_awake, change is_awake, grows))
            ]
      ];
      staying = λ keep. omega (arith, inv.staying (sym e.same ∙ keep), change is_gone, e.gone keep);
    }

-- The effect of a step that leaves the memory alone.
quiet :
    {n : ℕ} {m : Shared} {pc : ℕ → Pc} (p p' : Pc)
    → Inv n m pc
    → ((w : Job → ℕ) → in_hand w p ≡ in_hand w p')
    → is_live p ≡ is_live p'
    → is_working p ≡ is_working p'
    → (m.pool.keepalive ≡ true → (is_awake p ≤ is_awake p') × (is_gone p' ≤ is_gone p))
    → Effect m m p p'
quiet {n} {m} p p' inv h l w k = record {
  counted = inv.counted;
  in_order = inv.in_order;
  hand = λ w. omega (arith, h w);
  live = omega (arith, l);
  working = omega (arith, w);
  awake = λ more keep. inr (inr (refl, refl, (k keep).0));
  same = refl;
  gone = λ keep. (k keep).1;
}

effect :
    {n : ℕ} {m m' : Shared} {pc : ℕ → Pc} {p p' : Pc} (i : ℕ)
    → i < n
    → pc i ≡ p
    → Move m p m' p'
    → Inv n m pc
    → Effect m m' p p'
effect {n} {m} {m'} {pc} i lt here (start unheld) inv = record {
  counted = inv.counted;
  in_order = inv.in_order;
  hand = λ w. omega arith;
  live = omega arith;
  working = omega arith;
  awake = λ more keep. inr (inr (refl, refl, omega arith));
  same = refl;
  gone = λ keep. omega arith;
}
effect {n} {m} {m'} {pc} i lt here (stay keep) inv =
    quiet at_top waiting inv (λ w. refl) refl refl (λ keep. (omega arith, omega arith))
effect {n} {m} {m'} {pc} i lt here (stop over) inv =
    quiet at_top leaving inv (λ w. refl) refl refl (λ keep. cc)
effect {n} {m} {m'} {pc} i lt here (wait free) inv = record {
  counted = inv.counted;
  in_order = inv.in_order;
  hand = λ w. omega arith;
  live = omega arith;
  working = omega arith;
  awake = λ more keep. inr (inl (omega arith));
  same = refl;
  gone = λ keep. omega arith;
}
effect {n} {m} {m'} {pc} i lt here (go_on keep) inv =
    quiet woken counting inv (λ w. refl) refl refl (λ keep. (omega arith, omega arith))
effect {n} {m} {m'} {pc} i lt here (skip over) inv =
    quiet woken at_top inv (λ w. refl) refl refl (λ keep. cc)
effect {n} {m} {m'} {pc} i lt here (count unheld) inv = record {
  counted = inv.counted;
  in_order = inv.in_order;
  hand = λ w. omega arith;
  live = omega arith;
  working = omega arith;
  awake = λ more keep. inr (inr (refl, refl, omega arith));
  same = refl;
  gone = λ keep. omega arith;
}
effect {n} {m} {m'} {pc} i lt here (pull {job} {pool} e) inv =
    let (rest, q, s) = pull-first m.pool e in
    record {
      counted = omega (arith, s.len, inv.counted, ap length q, ap length s.queue);
      in_order =
          ap (λ l. (m.log.pulled ++ job ∷ []) ++ (l ++ m.log.dropped)) s.queue
          ∙ append_assoc m.log.pulled (job ∷ []) (rest ++ m.log.dropped)
          ∙ ap (λ l. m.log.pulled ++ (l ++ m.log.dropped)) (sym q)
          ∙ inv.in_order;
      hand = λ w. omega (arith, weight-append w m.log.pulled (job ∷ []));
      live = omega (arith, s.alive);
      working = omega (arith, s.working);
      awake = λ more keep. inl (s.posted more);
      same = s.keepalive;
      gone = λ keep. omega arith;
    }
effect {n} {m} {m'} {pc} i lt here (run {job}) inv = record {
  counted = inv.counted;
  in_order = inv.in_order;
  hand = λ w. omega arith;
  live = omega arith;
  working = omega arith;
  awake = λ more keep. inr (inr (refl, refl, omega arith));
  same = refl;
  gone = λ keep. omega arith;
}
effect {n} {m} {m'} {pc} i lt here (uncount unheld) inv = record {
  counted = inv.counted;
  in_order = inv.in_order;
  hand = λ w. omega arith;
  live = omega arith;
  working = omega (arith, inv.working, member is_working n pc i finished lt here);
  awake = λ more keep. inr (inr (refl, refl, omega arith));
  same = refl;
  gone = λ keep. omega arith;
}
effect {n} {m} {m'} {pc} i lt here (leave unheld) inv = record {
  counted = inv.counted;
  in_order = inv.in_order;
  hand = λ w. omega arith;
  live = omega (arith, inv.live, member is_live n pc i leaving lt here);
  working = omega arith;
  awake = λ more keep. inr (inr (refl, refl, omega arith));
  same = refl;
  gone = λ keep. omega arith;
}
effect {n} {m} {m'} {pc} i lt here unlock inv = record {
  counted = inv.counted;
  in_order = inv.in_order;
  hand = λ w. omega arith;
  live = omega arith;
  working = omega arith;
  awake = λ more keep. inr (inr (refl, refl, omega arith));
  same = refl;
  gone = λ keep. omega arith;
}

not_created : {m m' : Shared} {p p' : Pc} → Move m p m' p' → is_created p' ≡ 0
not_created (start unheld) = refl
not_created (stay keep) = refl
not_created (stop over) = refl
not_created (wait free) = refl
not_created (go_on keep) = refl
not_created (skip over) = refl
not_created (count unheld) = refl
not_created (pull e) = refl
not_created run = refl
not_created (uncount unheld) = refl
not_created (leave unheld) = refl
not_created unlock = refl

-- Every step of a thread keeps the invariant.
pub Move-Inv :
    {n : ℕ} {m m' : Shared} {pc : ℕ → Pc} {p p' : Pc} (i : ℕ)
    → i < n
    → pc i ≡ p
    → Move m p m' p'
    → Inv n m pc
    → Inv n m' (update pc i p')
Move-Inv i lt here move inv = Effect-Inv i lt here (effect i lt here move inv) inv

-- No step creates a thread.
pub Move-created :
    {n : ℕ} {m m' : Shared} {p p' : Pc} (pc : ℕ → Pc) (i : ℕ)
    → i < n
    → pc i ≡ p
    → Move m p m' p'
    → total is_created n pc ≡ 0
    → total is_created n (update pc i p') ≡ 0
Move-created {n} {m} {m'} {p} {p'} pc i lt here move zero_before =
    omega (arith, changed is_created n pc i p p' lt here, zero_before, not_created move)

-- What no thread changes.
pub Move-kept :
    {m m' : Shared} {p p' : Pc}
    → Move m p m' p'
    → (m'.pool.keepalive ≡ m.pool.keepalive) × (m'.log.dropped ≡ m.log.dropped)
Move-kept (start unheld) = (refl, refl)
Move-kept (stay keep) = (refl, refl)
Move-kept (stop over) = (refl, refl)
Move-kept (wait free) = (refl, refl)
Move-kept (go_on keep) = (refl, refl)
Move-kept (skip over) = (refl, refl)
Move-kept (count unheld) = (refl, refl)
Move-kept {m} (pull e) = let (rest, q, s) = pull-first m.pool e in (s.keepalive, refl)
Move-kept run = (refl, refl)
Move-kept (uncount unheld) = (refl, refl)
Move-kept (leave unheld) = (refl, refl)
Move-kept unlock = (refl, refl)
