-- ===== src/Thpool/Invariant/Queue.antt =====
-- The queue of src/util/thpool.c on its own: what a pull takes, and how it is cleared.
use nowra.Base.{
  ℕ, zero, suc, ◌-◌, ◌≤◌, ◌<◌, ◌≡◌, refl, sym, ap, subst, ◌∙◌, inl, inr, true, false, none, some,
  List, [], ◌∷◌, arith, ◌==◌, length, Bool-cases, ==_iff,
}
use nowra.Thpool.{
  Job, Pool, shrink, pull_from, thpool_jobqueue_pull, clear_loop, thpool_jobqueue_clear,
}

-- `shrink` takes one off `len`, and posts the semaphore if jobs are left.
pub record Shrunk (tp tp' : Pool) : Type 0 where
  pub queue : tp'.queue ≡ tp.queue
  pub len : tp'.len ≡ tp.len - 1
  pub posted : 0 < tp'.len → tp'.v ≡ 1
  pub alive : tp'.num_threads_alive ≡ tp.num_threads_alive
  pub working : tp'.num_threads_working ≡ tp.num_threads_working
  pub keepalive : tp'.keepalive ≡ tp.keepalive

pub shrink-Shrunk : (tp : Pool) → Shrunk tp (shrink tp)
unfolding shrink
shrink-Shrunk tp = elim (Bool-cases (tp.len == 0)) [
  | inl empty ↦
      let none_left = (==_iff tp.len 0).0 empty in
      rw empty (record {
        queue = refl;
        len = omega (arith, none_left);
        posted = λ more. absurd (omega (arith, none_left));
        alive = refl;
        working = refl;
        keepalive = refl;
      })
  | inr some_jobs ↦ elim (Bool-cases (tp.len == 1)) [
    | inl one ↦
        let last = (==_iff tp.len 1).0 one in
        rw (some_jobs, one)
          (record {
            queue = refl;
            len = omega (arith, last);
            posted = λ more. absurd (omega arith);
            alive = refl;
            working = refl;
            keepalive = refl;
          })
    | inr more ↦
        rw (some_jobs, more)
          (record {
            queue = refl;
            len = refl;
            posted = λ _. refl;
            alive = refl;
            working = refl;
            keepalive = refl;
          })
  ]
]

some_injective : (a b : Job) → some a ≡ some b → a ≡ b
some_injective a b e = cc

pull_from-first :
    {job : Job} {tp' : Pool} (queue : List Job) (tp : Pool)
    → pull_from queue tp ≡ (some job, tp')
    → (rest : List Job) × (queue ≡ job ∷ rest) × Shrunk (record tp { queue = rest }) tp'
unfolding pull_from
pull_from-first {job} [] tp e = let clash : none ≡ some job = ap (λ z. z.0) e in cc
pull_from-first {job} (first ∷ rest) tp e = (
  rest,
  ap (λ j. j ∷ rest) (some_injective first job (ap (λ z. z.0) e)),
  subst (Shrunk (record tp { queue = rest })) (ap (λ z. z.1) e)
      (shrink-Shrunk (record tp { queue = rest })),
)

-- A pull takes the first job, if there is one.
pub pull-first :
    {job : Job} {tp' : Pool} (tp : Pool)
    → thpool_jobqueue_pull tp ≡ (some job, tp')
    → (rest : List Job) × (tp.queue ≡ job ∷ rest) × Shrunk (record tp { queue = rest }) tp'
unfolding thpool_jobqueue_pull
pull-first tp e = pull_from-first tp.queue tp e

-- What a pull or the clearing of the queue keeps of the pool.
pub record SameThreads (tp tp' : Pool) : Type 0 where
  pub alive : tp'.num_threads_alive ≡ tp.num_threads_alive
  pub working : tp'.num_threads_working ≡ tp.num_threads_working
  pub keepalive : tp'.keepalive ≡ tp.keepalive

pull_from-shorter :
    (queue : List Job) (tp : Pool)
    → 0 < length queue
    → ((pull_from queue tp).1.len ≡ tp.len - 1)
      × (length (pull_from queue tp).1.queue ≡ length queue - 1)
      × SameThreads tp (pull_from queue tp).1
unfolding pull_from
pull_from-shorter [] tp h = absurd (omega arith)
pull_from-shorter (job ∷ rest) tp h =
    let s = shrink-Shrunk (record tp { queue = rest }) in
    (
      s.len,
      ap length s.queue ∙ omega arith,
      record { alive = s.alive; working = s.working; keepalive = s.keepalive },
    )

no_jobs : (queue : List Job) → length queue ≡ 0 → queue ≡ []
no_jobs [] e = refl
no_jobs (job ∷ rest) e = absurd (omega arith)

is_zero : (n : ℕ) → n ≤ 0 → (n == 0) ≡ true
is_zero n h = ground arith

positive : (n : ℕ) → (n == 0) ≡ false → 0 < n
positive n h = ground arith

unchanged : (tp : Pool) → SameThreads tp tp
unchanged tp = record { alive = refl; working = refl; keepalive = refl }

-- With a turn for each job the loop ends, with an empty queue.
pub clear_loop-ends :
    (turns : ℕ) (tp : Pool)
    → tp.len ≡ length tp.queue
    → tp.len ≤ turns
    → (tp' : Pool) × (clear_loop turns tp ≡ some tp') × (tp'.queue ≡ []) × SameThreads tp tp'
unfolding clear_loop thpool_jobqueue_pull
clear_loop-ends zero tp c h =
    rw (is_zero tp.len h) (tp, refl, no_jobs tp.queue (omega (arith, c, h)), unchanged tp)
clear_loop-ends (suc turns) tp c h = elim (Bool-cases (tp.len == 0)) [
  | inl empty ↦
      rw empty (tp, refl, no_jobs tp.queue (sym c ∙ (==_iff tp.len 0).0 empty), unchanged tp)
  | inr more ↦
      let (fewer, shorter, same) =
        pull_from-shorter tp.queue tp (omega (arith, c, positive tp.len more)) in
      let (tp', run, e, later) =
        clear_loop-ends turns (thpool_jobqueue_pull tp).1 (omega (arith, fewer, shorter, c))
          (omega (arith, fewer, h)) in
      rw (more, run, clear_loop)
        (
          tp',
          refl,
          e,
          record {
            alive = later.alive ∙ same.alive;
            working = later.working ∙ same.working;
            keepalive = later.keepalive ∙ same.keepalive;
          },
        )
]

some_pool : (a b : Pool) → some a ≡ some b → a ≡ b
some_pool a b e = ap (λ o. elim o [ some c ↦ c | none ↦ a ]) e

-- What `thpool_jobqueue_clear` leaves, with as many turns as there are jobs.
pub record Cleared (tp tp' : Pool) : Type 0 where
  pub queue : tp'.queue ≡ []
  pub len : tp'.len ≡ 0
  pub same : SameThreads tp tp'

pub clear-Cleared :
    (tp : Pool)
    → tp.len ≡ length tp.queue
    → (tp' : Pool) × (thpool_jobqueue_clear tp.len tp ≡ some tp') × Cleared tp tp'
unfolding thpool_jobqueue_clear
clear-Cleared tp c =
    let (tp', run, empty, same) = clear_loop-ends tp.len tp c (omega arith) in
    rw (run, thpool_jobqueue_clear)
      (
        _,
        refl,
        record {
          queue = empty;
          len = refl;
          same = record { alive = same.alive; working = same.working; keepalive = same.keepalive };
        },
      )

pub result-Cleared :
    {tp' : Pool} (tp : Pool)
    → tp.len ≡ length tp.queue
    → thpool_jobqueue_clear tp.len tp ≡ some tp'
    → Cleared tp tp'
result-Cleared tp c e =
    let (tp'', run, cleared) = clear-Cleared tp c in
    subst (Cleared tp) (some_pool _ _ (sym run ∙ e)) cleared
