-- ===== src/Thpool/Promises.antt =====
-- What the pool of src/util/thpool.c promises to those who use it.
use nowra.Base.{
  ℕ, ◌+◌, ◌<◌, ◌≡◌, refl, sym, ap, subst, ◌∙◌, ◌⊎◌, inl, inr, false, List, [], ◌∷◌, ◌++◌, arith,
  weight, length,
}
use nowra.Thpool.{Job, Pool, busy}
use nowra.Thpool.Family.{total, total-member, total-positive, total-dominated}
use nowra.Thpool.Worker.{
  Pc, created, at_top, waiting, woken, counting, pulling, running, finished, leaving, unlocking,
  exited,
}
use nowra.Thpool.System.{System, serving, destroyed, Reach}
use nowra.Thpool.Invariant.{AtStage, is_live, is_working, is_awake, is_created, in_hand}
use nowra.Thpool.Invariant.Steps.{Reach-Good, pulled_queue}
use nowra.Vstring.Bytes.{append_nil}

-- In every reachable state of the pool the jobs that were pulled, those in the queue and those that were freed
-- with it are, in this order, the jobs that were added; and every pulled job has been run or is in the
-- hand of a thread, once.
pub Reach-in_order :
    {s : System} (n : ℕ)
    → Reach n s
    → (s.shared.log.pulled ++ (s.shared.pool.queue ++ s.shared.log.dropped) ≡ s.shared.log.added)
      × ((w : Job → ℕ)
          → weight w s.shared.log.ran + total (in_hand w) n s.pc ≡ weight w s.shared.log.pulled)
Reach-in_order n r = let (inv, h) = Reach-Good r in (inv.in_order, inv.once)

idle_hand : (w : Job → ℕ) (p : Pc) → is_working p ≡ 0 → in_hand w p ≡ 0
idle_hand w (running job) e = absurd (omega arith)
idle_hand w created e = refl
idle_hand w at_top e = refl
idle_hand w waiting e = refl
idle_hand w woken e = refl
idle_hand w counting e = refl
idle_hand w pulling e = refl
idle_hand w finished e = refl
idle_hand w leaving e = refl
idle_hand w unlocking e = refl
idle_hand w exited e = refl

not_busy : (pool : Pool) → busy pool ≡ false → (pool.len ≡ 0) × (pool.num_threads_working ≡ 0)
not_busy pool e = (ground arith, ground arith)

no_jobs : (queue : List Job) → length queue ≡ 0 → queue ≡ []
no_jobs [] e = refl
no_jobs (job ∷ rest) e = absurd (omega arith)

-- When the condition on which `thpool_wait` polls is false, between `thpool_init` and `thpool_destroy`, every
-- job that was added has been run exactly once: the jobs run and the jobs added weigh the same.
pub not_busy-all_ran :
    {s : System} (n : ℕ)
    → Reach n s
    → s.stage ≡ serving
    → busy s.shared.pool ≡ false
    → (w : Job → ℕ) → weight w s.shared.log.ran ≡ weight w s.shared.log.added
not_busy-all_ran {s} n r at e w =
    let (inv, h) = Reach-Good r in
    let (keep, empty, all) = subst (AtStage n s.shared s.pc) at h in
    let (none_queued, none_working) = not_busy s.shared.pool e in
    let queue = no_jobs s.shared.pool.queue (sym inv.counted ∙ none_queued) in
    let added : s.shared.log.pulled ≡ s.shared.log.added =
      sym (append_nil s.shared.log.pulled)
      ∙ ap (λ q. s.shared.log.pulled ++ q) (sym queue)
      ∙ pulled_queue empty inv in
    omega (
      arith,
      inv.once w,
      total-dominated (in_hand w) is_working (idle_hand w) n s.pc (sym inv.working ∙ none_working),
      ap (weight w) added,
    )

-- A wake-up is never lost: when a job is queued, between `thpool_init` and `thpool_destroy`, the semaphore is 1 or
-- a thread has been woken and is on its way to the queue.
pub queued-awake :
    {s : System} (n : ℕ)
    → Reach n s
    → s.stage ≡ serving
    → 0 < s.shared.pool.len
    → (s.shared.pool.v ≡ 1) ⊎ ((i : ℕ) × (i < n) × (0 < is_awake (s.pc i)))
queued-awake {s} n r at more =
    let (inv, h) = Reach-Good r in
    let (keep, empty, all) = subst (AtStage n s.shared s.pc) at h in
    elim (inv.awake more keep) [
      | inl posted ↦ inl posted
      | inr some_awake ↦ inr (total-positive is_awake n s.pc some_awake)
    ]

gone : (p : Pc) → is_live p ≡ 0 → is_created p ≡ 0 → (p ≡ exited) ⊎ (p ≡ unlocking)
gone exited e f = inl refl
gone unlocking e f = inr refl
gone created e f = absurd (omega arith)
gone at_top e f = absurd (omega arith)
gone waiting e f = absurd (omega arith)
gone woken e f = absurd (omega arith)
gone counting e f = absurd (omega arith)
gone pulling e f = absurd (omega arith)
gone (running job) e f = absurd (omega arith)
gone finished e f = absurd (omega arith)
gone leaving e f = absurd (omega arith)

-- When `thpool_destroy` has freed the pool, every thread has left it, or has decremented num_threads_alive and is about to
-- unlock `thcount_lock`.
pub destroyed-left :
    {s : System} (n : ℕ)
    → Reach n s
    → s.stage ≡ destroyed
    → (i : ℕ) → i < n
    → (s.pc i ≡ exited) ⊎ (s.pc i ≡ unlocking)
destroyed-left {s} n r at i lt =
    let (inv, h) = Reach-Good r in
    let (all, dead) = subst (AtStage n s.shared s.pc) at h in
    gone (s.pc i) (omega (arith, dead, total-member is_live n s.pc i lt))
      (omega (arith, all, total-member is_created n s.pc i lt))
