-- ===== src/Thpool/Invariant/Steps.antt =====
-- Every step of a pool of src/util/thpool.c and its owner keeps the invariant: it holds in all reachable states.
use nowra.Base.{
  ℕ, ◌+◌, ◌≤◌, ◌<◌, ◌≡◌, refl, sym, ap, subst, ◌∙◌, inl, [], ◌∷◌, ◌++◌, arith, length,
  length-append,
}
use nowra.Thpool.{Job, new_pool, thpool_add_work, thpool_jobqueue_push, thpool_bsem_post_all}
use nowra.Thpool.Family.{update, total-both, total_const}
use nowra.Thpool.Worker.{Shared, Pc, created, Move}
use nowra.Thpool.System.{
  System, Stage, starting, serving, stopping, destroyed, crashed, init, Step, IsAlive, pick,
  pull_empty, unlock_freed, started, add_work, destroy, post_all, clean_up, Reach, from_init, later,
}
use nowra.Thpool.Invariant.{Inv, AtStage, is_live, is_working, is_created, is_gone, in_hand}
use nowra.Thpool.Invariant.Queue.{result-Cleared}
use nowra.Thpool.Invariant.Moves.{Move-Inv, Move-created, Move-kept}
use nowra.Vstring.Bytes.{append_assoc, append_nil}

abbrev pub Good : ℕ → System → Type 0
Good n s = Inv n s.shared s.pc × AtStage n s.shared s.pc s.stage

init-Good : (n : ℕ) → Good n init
unfolding new_pool
init-Good n = (
  record {
    counted = refl;
    in_order = refl;
    once = λ w. omega (arith, total_const (in_hand w) n created refl);
    live = omega (arith, total_const is_live n created refl);
    working = omega (arith, total_const is_working n created refl);
    awake = λ more keep. absurd (omega arith);
    staying = λ keep. total_const is_gone n created refl;
  },
  (refl, refl),
)

-- A step of a thread keeps what the stage says.
pick-AtStage :
    {n : ℕ} {m m' : Shared} {p' : Pc} (pc : ℕ → Pc) (stage : Stage) (i : ℕ)
    → i < n
    → IsAlive stage
    → Move m (pc i) m' p'
    → AtStage n m pc stage
    → AtStage n m' (update pc i p') stage
pick-AtStage pc starting i lt calm move h = let k = Move-kept move in (k.0 ∙ h.0, k.1 ∙ h.1)
pick-AtStage pc serving i lt calm move h =
    let k = Move-kept move in (k.0 ∙ h.0, k.1 ∙ h.1, Move-created pc i lt refl move h.2)
pick-AtStage pc stopping i lt calm move h =
    let k = Move-kept move in (k.1 ∙ h.0, Move-created pc i lt refl move h.1)
pick-AtStage pc destroyed i lt calm move h = absurd (calm.1 refl)
pick-AtStage pc crashed i lt calm move h = tt

-- Before the queue is freed, the jobs are pulled or in it.
pub pulled_queue :
    {n : ℕ} {m : Shared} {pc : ℕ → Pc}
    → m.log.dropped ≡ []
    → Inv n m pc
    → m.log.pulled ++ m.pool.queue ≡ m.log.added
pulled_queue {n} {m} empty inv =
    ap (λ l. m.log.pulled ++ l) (sym (append_nil m.pool.queue))
    ∙ ap (λ d. m.log.pulled ++ (m.pool.queue ++ d)) (sym empty)
    ∙ inv.in_order

abbrev pushed : Job → Shared → Shared
pushed job m = record {
  pool = thpool_add_work job m.pool;
  log = record (m.log) { added = m.log.added ++ job ∷ [] };
}

push-Inv :
    {n : ℕ} {m : Shared} {pc : ℕ → Pc} (job : Job)
    → m.log.dropped ≡ []
    → Inv n m pc
    → Inv n (pushed job m) pc
unfolding thpool_add_work thpool_jobqueue_push
push-Inv {n} {m} job empty inv = record {
  counted = omega (arith, inv.counted, length-append m.pool.queue (job ∷ []));
  in_order =
      ap (λ d. m.log.pulled ++ ((m.pool.queue ++ job ∷ []) ++ d)) empty
      ∙ ap (λ l. m.log.pulled ++ l) (append_nil (m.pool.queue ++ job ∷ []))
      ∙ sym (append_assoc m.log.pulled m.pool.queue (job ∷ []))
      ∙ ap (λ l. l ++ job ∷ []) (pulled_queue empty inv);
  once = inv.once;
  live = inv.live;
  working = inv.working;
  awake = λ more keep. inl refl;
  staying = inv.staying;
}

live_or_created : (p : Pc) → is_live p + is_created p ≤ 1
live_or_created p = ground arith

pub Step-Good : {n : ℕ} {s t : System} → Step n s t → Good n s → Good n t
unfolding thpool_add_work thpool_jobqueue_push
Step-Good {n} {s} (pick i lt calm move) (inv, h) =
    (Move-Inv i lt refl move inv, pick-AtStage s.pc s.stage i lt calm move h)
Step-Good {n} {s} (pull_empty i lt calm at e) (inv, h) = (inv, tt)
Step-Good {n} {s} (unlock_freed i lt at here) (inv, h) = (inv, tt)
Step-Good {n} {s} (started at all) (inv, h) =
    let (keep, empty) = subst (AtStage n s.shared s.pc) at h in
    (
      inv,
      (
        keep,
        empty,
        omega (arith, inv.live, all, total-both is_live is_created live_or_created n s.pc),
      ),
    )
Step-Good {n} {s} (add_work job at) (inv, h) =
    let (keep, empty, all) = subst (AtStage n s.shared s.pc) at h in
    (
      push-Inv job empty inv,
      subst (AtStage n (pushed job s.shared) s.pc) (sym at) (keep, empty, all),
    )
Step-Good {n} {s} (destroy at) (inv, h) =
    let (keep, empty, all) = subst (AtStage n s.shared s.pc) at h in
    (
      record {
        counted = inv.counted;
        in_order = inv.in_order;
        once = inv.once;
        live = inv.live;
        working = inv.working;
        awake = λ more keep. cc;
        staying = λ keep. cc;
      },
      (empty, all),
    )
Step-Good {n} {s} (post_all at some_alive) (inv, h) = (
  record {
    counted = inv.counted;
    in_order = inv.in_order;
    once = inv.once;
    live = inv.live;
    working = inv.working;
    awake = λ more keep. inl refl;
    staying = inv.staying;
  },
  subst (AtStage n (record (s.shared) { pool = thpool_bsem_post_all s.shared.pool }) s.pc) (sym at)
      (subst (AtStage n s.shared s.pc) at h),
)
Step-Good {n} {s} (clean_up at dead e) (inv, h) =
    let (empty, all) = subst (AtStage n s.shared s.pc) at h in
    let c = result-Cleared s.shared.pool inv.counted e in
    (
      record {
        counted = omega (arith, c.len, ap length c.queue);
        in_order =
            ap (λ q. s.shared.log.pulled ++ (q ++ s.shared.pool.queue)) c.queue
            ∙ pulled_queue empty inv;
        once = inv.once;
        live = c.same.alive ∙ inv.live;
        working = c.same.working ∙ inv.working;
        awake = λ more keep. absurd (omega (arith, c.len));
        staying = λ keep. inv.staying (sym c.same.keepalive ∙ keep);
      },
      (all, sym inv.live ∙ dead),
    )

-- The invariant holds in every reachable state.
pub Reach-Good : {n : ℕ} {s : System} → Reach n s → Good n s
Reach-Good {n} from_init = init-Good n
Reach-Good (later r step) = Step-Good step (Reach-Good r)
