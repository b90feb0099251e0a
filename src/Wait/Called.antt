-- ===== src/Wait/Called.antt =====
-- Turns of `event_wait` of src/util/events.c for a program whose timers do not touch its state: what its functions do for the
-- descriptors that are ready is done once for each event, in order.
use nowra.Base.{
  ◌∙◌, ℕ, suc, ◌≤◌, ◌<◌, ◌≡◌, refl, subst, inl, inr, ◌||◌, Option, none, some, List, [], ◌∷◌, ◌++◌,
  arith, length, if◌then◌else◌, ℤ, pos, negsuc, incr, ltb_ℤ, Bool-cases, Option-cases, Outcome, ok,
  abort, undefined, ◌>>=◌, get_elem?, Ensures, Ensures-ok, Ensures-abort, Ensures-if, Ensures-then,
  Concludes,
}
use nowra.Events.{EventBase, EventLoop}
use nowra.Timer.{Timers}
use nowra.Wait.{
  Turn, wait_turn, next_turns, wait_forever, Ready, Waited, interrupted, failed, events, Handlers,
  call_base, on_fd, on_ready, call_all, after_timers, unnest, after_wait, before_wait, event_wait,
}
use nowra.Wait.Turns.{IsKept, run_timers-Concludes, before_wait-length}

-- What is given in the calls for these events, and during some turns: a call for each event that is reported.
abbrev pub call_of : {I : Type 0} → Ready I → List I
call_of e = if e.epollin || e.epollout then e.given ∷ [] else []

abbrev pub calls_of : {I : Type 0} → List (Ready I) → List I
calls_of [] = []
calls_of (e ∷ es) = call_of e ++ calls_of es

abbrev pub calls_in : {I : Type 0} → Waited I → List I
calls_in interrupted = []
calls_in failed = []
calls_in (events es) = calls_of es

abbrev pub called : {I : Type 0} → List (Turn I) → List I
called [] = []
called (turn ∷ more) = calls_in turn.waited ++ called more

module _ {I W : Type 0} (h : Handlers I W) (Q : List I → W → W → Type 0) where
  -- `Q` says what the calls do to the state.
  pub record Calls : Type 0 where
    pub none_yet : (w : W) → Q [] w w
    pub both : (xs ys : List I) (w w' w'' : W) → Q xs w w' → Q ys w' w'' → Q (xs ++ ys) w w''
    pub timers :
        (c x : ℕ) (t : Timers) (w : W)
        → Ensures (λ s. (s.1 ≡ w) × (length s.0.queue ≤ length t.queue)) (h.call_timer c x (t, w))
    pub clock : (now : ℕ) (w : W) → h.at_time now w ≡ w
    pub ready :
        (given : I) (c fd x : ℕ) (t : Timers) (w : W)
        → Ensures (λ s. Q (given ∷ []) w s.1) (h.call_ready given c fd x (t, w))

module _ {I W : Type 0} (h : Handlers I W) (Q : List I → W → W → Type 0) (k : Calls h Q) where
  on_fd-Called :
      (e : Ready I) (l : EventLoop) (fd : ℤ) (t : Timers) (w : W)
      → Ensures (λ s. Q (call_of e) w s.1) (on_fd h e l fd (t, w))
  unfolding on_fd call_base
  on_fd-Called e l (negsuc n) t w = Ensures-abort _ _
  on_fd-Called e l (pos fd) t w =
      Ensures-if _ (ltb_ℤ l.maxfd (pos fd)) _ _ (Ensures-abort _ _) (at (get_elem? l.reg_events fd))
    where
      at :
          (found : Option EventBase)
          → Ensures
              (λ s. Q (call_of e) w s.1)
              (elim found [ none ↦ abort undefined | some eb ↦ call_base h e fd eb (t, w) ])
      at none = Ensures-abort _ undefined
      at (some eb) = elim (Bool-cases e.epollin) [
        | inl input ↦ rw input (k.ready e.given eb.read_cb fd eb.client_data t w)
        | inr no_input ↦ elim (Bool-cases e.epollout) [
          | inl output ↦ rw (no_input, output) (k.ready e.given eb.write_cb fd eb.client_data t w)
          | inr no_output ↦
              rw (no_input, no_output) (Ensures-ok (λ s. Q [] w s.1) (t, w) (k.none_yet w))
        ]
      ]

  on_ready-Called :
      (e : Ready I) (l : Option EventLoop) (t : Timers) (w : W)
      → Ensures (λ s. Q (call_of e) w s.1) (on_ready h e l (t, w))
  unfolding on_ready
  on_ready-Called e none t w = Ensures-abort _ undefined
  on_ready-Called e (some l) t w = on_fd-Called e l e.fd t w

  call_all-Called :
      (es : List (Ready I)) (t : Timers) (w : W)
      → Ensures (λ s. Q (calls_of es) w s.1) (call_all h es (t, w))
  unfolding call_all
  call_all-Called [] t w = Ensures-ok (λ s. Q [] w s.1) (t, w) (k.none_yet w)
  call_all-Called (e ∷ more) t w =
      Ensures-then _ (λ s. Q (call_of e) w s.1) (on_ready h e (h.loop_of w) (t, w)) _
        (on_ready-Called e (h.loop_of w) t w)
        (λ (t', w') q s run.
          k.both (call_of e) (calls_of more) w w' s.1 q (call_all-Called more t' w' s run))

  -- The timers leave the state alone.
  abbrev Still : W → Timers × W → Type 0
  Still w s = s.1 ≡ w

  -- The handlers of the timers alone.
  abbrev of_timers : Handlers I W
  of_timers = record h { call_ready = λ given c fd x s. abort undefined }

  timers-IsKept : (w : W) → IsKept of_timers (Still w)
  timers-IsKept w = record {
    timers = λ c x s e s' run. let (same, fewer) = k.timers c x s.0 s.1 s' run in (same ∙ e, fewer);
    ready = λ given c fd x s e. Ensures-abort (Still w) undefined;
    taken = λ s u t e f. e;
    before = λ now s e some_time. e;
    later = λ now s e some_time. k.clock now s.1 ∙ e;
  }

  abbrev Turned : List I → W → ℤ × Timers × W → Type 0
  Turned xs w r = Q xs w r.2

  ready_turn :
      (es : List (Ready I)) (w : W) (nested : ℤ) (r : Option (Outcome (Timers × W)))
      → Concludes (Still w) r
      → Concludes (Turned (calls_of es) w) (unnest h nested (after_timers h es r))
  unfolding unnest after_timers
  ready_turn es w nested r (o, e, still) = rw e (
    _,
    refl,
    Ensures-then (Turned (calls_of es) w) (λ s. Q (calls_of es) w s.1) (o >>= λ s. call_all h es s)
        _
        (Ensures-then (λ s. Q (calls_of es) w s.1) (Still w) o _ still
          (λ (t, w') same.
            subst (λ v. Ensures (λ s. Q (calls_of es) v s.1) (call_all h es (t, w'))) same
              (call_all-Called es t w')))
        (λ s q. Ensures-ok (Turned (calls_of es) w) _ q),
  )

  after_wait-Called :
      (fuel now : ℕ) (waited : Waited I) (nested : ℤ) (t : Timers) (w : W)
      → length t.queue < fuel
      → Concludes (Turned (calls_in waited) w) (after_wait h fuel now waited nested (t, w))
  unfolding after_wait
  after_wait-Called fuel now interrupted nested t w less =
      (_, refl, Ensures-ok (Turned [] w) _ (k.none_yet w))
  after_wait-Called fuel now failed nested t w less = (_, refl, Ensures-abort (Turned [] w) _)
  after_wait-Called fuel now (events es) nested t w less =
      elim (Bool-cases (ltb_ℤ (pos 0) nested)) [
        | inl deep ↦ rw deep (_, refl, Ensures-abort (Turned (calls_of es) w) _)
        | inr flat ↦ rw flat (
            ready_turn es w (incr nested) _ (
              run_timers-Concludes of_timers (Still w) (timers-IsKept w) fuel
                (record t { present = now }, h.at_time now w) (k.clock now w) less))
      ]

  wait_turn-Called :
      (turn : Turn I) (s : ℤ × Timers × W)
      → Concludes (Turned (calls_in turn.waited) s.2) (wait_turn h turn s)
  unfolding wait_turn event_wait
  wait_turn-Called turn (nested, t, w) = elim (Option-cases (h.loop_of w)) [
    | inl e ↦ rw (e, event_wait) (_, refl, Ensures-abort (Turned (calls_in turn.waited) w) _)
    | inr (l, e) ↦
        rw (e, event_wait)
          (after_wait-Called (suc (length t.queue)) turn.now' turn.waited nested
            (before_wait turn.now t) w (omega (arith, before_wait-length turn.now t)))
  ]

  next-Called :
      (xs ys : List I) (w : W) (rest : ℤ × Timers × W → Option (Outcome (ℤ × Timers × W)))
      (r : Option (Outcome (ℤ × Timers × W)))
      → Concludes (Turned xs w) r
      → ((s : ℤ × Timers × W) → Concludes (Turned ys s.2) (rest s))
      → Concludes (Turned (xs ++ ys) w) (next_turns h rest r)
  unfolding next_turns
  next-Called xs ys w rest r (abort x, e, q) go =
      rw e (abort x, refl, Ensures-abort (Turned (xs ++ ys) w) x)
  next-Called xs ys w rest r (ok s, e, q) go =
      let (o, run, q') = go s in rw e (o, run, λ s' f. k.both xs ys w s.2 s'.2 (q s refl) (q' s' f))

  -- Whatever the system answers, the loop comes through the turns, or it aborts; if it does not, the calls were made.
  pub wait_forever-Called :
      (turns : List (Turn I)) (s : ℤ × Timers × W)
      → Concludes (Turned (called turns) s.2) (wait_forever h turns s)
  unfolding wait_forever
  wait_forever-Called [] s = (ok s, refl, Ensures-ok (Turned [] s.2) s (k.none_yet s.2))
  wait_forever-Called (turn ∷ more) s =
      next-Called (calls_in turn.waited) (called more) s.2 (wait_forever h more)
        (wait_turn h turn s) (wait_turn-Called turn s) (λ s'. wait_forever-Called more s')
