-- ===== src/Server/Rounds.antt =====
-- The two sides of the status pipe together: a process of src/master/single_server.c that has served some connections, and
-- `master_status_event` of src/master/master_status.c, which reads what it wrote.
use nowra.Base.{
  All, Bool, pos, ℕ, suc, ◌+◌, ◌≡◌, refl, sym, ap, ◌∙◌, false, some, List, [], ◌∷◌, ◌++◌, arith,
  ◌==◌, ℤ, Outcome, ok, abort, ◌>>=◌, Returns,
}
use nowra.Events.Kernel.{Epoll}
use nowra.Master.Table.{Proc, ChildTable, stat_taken, stat_avail}
use nowra.Master.{World, find_in}
use nowra.Master.Counts.{load, IsConsistent}
use nowra.Master.Status.{Message, master_status_event}
use nowra.Master.Status.Told.{told}
use nowra.Master.Status.Update.Exact.{tells_avail, tells_taken}
use nowra.Timer.{Timers}
use nowra.Wait.{Turn}
use nowra.Wait.Called.{called}
use nowra.Server.{Accepted, connected, try_again, refused, Process, single_server_main}
use nowra.Server.Told.{messages, connections, single_server_main-HasTold}

bind_append :
    {B : Type 0} (r : Outcome B) (f g k : B → Outcome B)
    → ((b : B) → f b ≡ (g b >>= k))
    → (r >>= f) ≡ ((r >>= g) >>= k)
bind_append (ok b) f g k h = h b
bind_append (abort x) f g k h = refl

-- The message of 8 bytes.
abbrev message : ℕ → ℤ → Message
message pid a = record { n = pos 8; pid = pid; avail = a }

-- Both calls of write() write a whole message.
abbrev pub IsWhole : Accepted → Type 0
IsWhole (connected fd taken avail) = (taken ≡ pos 8) × (avail ≡ pos 8)
IsWhole try_again = Unit
IsWhole refused = Unit

module _ (ep : Epoll) (ct : ChildTable) where
  -- The master reads the messages one after the other.
  unfoldable pub read_all : (event : ℕ) → List Message → ℕ → World ep ct → Outcome (World ep ct)
  read_all event [] s w = ok w
  read_all event (m ∷ more) s w =
      master_status_event ep ct event m s w >>= λ w'. read_all event more s w'

  -- The child after `n` more connections.
  abbrev pub used : ℕ → Proc → Proc
  used n p = record p { use_count = p.use_count + n }

  -- The bookkeeping is right, the child has `n` more uses, and all else in the table is as it was.
  abbrev pub Served : ℕ → Proc → World ep ct → World ep ct → Type 0
  Served n p w w' =
      IsConsistent ep ct w'
      × (find_in ep ct p.pid w'.child_table ≡ some (used n p))
      × ((f : Proc → ℕ)
          → load ep ct f w'.child_table + f p ≡ load ep ct f w.child_table + f (used n p))

  one_round :
      (event : ℕ) (p : Proc) (w : World ep ct)
      → (event == 0) ≡ false
      → IsConsistent ep ct w
      → find_in ep ct p.pid w.child_table ≡ some p
      → p.avail ≡ stat_avail
      → Returns
          (read_all event (message p.pid stat_taken ∷ message p.pid stat_avail ∷ []) p.serv w)
          (Served 1 p w)
  unfolding read_all
  one_round event p w nonzero c e idle =
      let (w1, run1, (c1, e1, moved1)) =
        tells_taken ep ct p w e c event (message p.pid stat_taken) nonzero (refl, refl, refl)
          idle in
      let (w2, run2, (c2, e2, moved2)) =
        tells_avail ep ct (told p stat_taken) w1 e1 c1 event (message p.pid stat_avail) nonzero
          (refl, refl, refl) refl in
      let again : told (told p stat_taken) stat_avail ≡ used 1 p =
        ap (λ (a : ℤ). record p { avail = a; use_count = p.use_count + 1 }) (sym idle) in
      rw (run1, run2)
        (w2, refl, (c2, e2 ∙ ap some again, λ f. omega (arith, moved1 f, moved2 f, ap f again)))

  read_all-append :
      (event : ℕ) (ms more : List Message) (s : ℕ) (w : World ep ct)
      → read_all event (ms ++ more) s w ≡ (read_all event ms s w >>= λ w'. read_all event more s w')
  unfolding read_all
  read_all-append event [] more s w = refl
  read_all-append event (m ∷ ms) more s w =
      bind_append (master_status_event ep ct event m s w) (λ w'. read_all event (ms ++ more) s w')
        (λ w'. read_all event ms s w') (λ w'. read_all event more s w')
        (λ w'. read_all-append event ms more s w')

  -- One connection, and then others.
  then_Served :
      (n : ℕ) (p : Proc) (w w1 w2 : World ep ct)
      → Served 1 p w w1
      → Served n (used 1 p) w1 w2
      → Served (suc n) p w w2
  then_Served n p w w1 w2 (c1, e1, moved1) (c2, e2, moved2) =
      let more : used n (used 1 p) ≡ used (suc n) p =
        ap (λ (n : ℕ). record p { use_count = n }) (omega arith) in
      (c2, e2 ∙ ap some more, λ f. omega (arith, moved1 f, moved2 f, ap f more))

  messages-Served :
      (event : ℕ) (cs : List Accepted) (p : Proc) (w : World ep ct)
      → All IsWhole cs
      → (event == 0) ≡ false
      → IsConsistent ep ct w
      → find_in ep ct p.pid w.child_table ≡ some p
      → p.avail ≡ stat_avail
      → Returns (read_all event (messages p.pid cs) p.serv w) (Served (connections cs) p w)
  unfolding read_all
  messages-Served event [] p w whole nonzero c e idle =
      let same : p ≡ used 0 p = ap (λ (n : ℕ). record p { use_count = n }) (omega arith) in
      (w, refl, (c, e ∙ ap some same, λ f. omega (arith, ap f same)))
  messages-Served event (connected fd taken avail ∷ cs) p w ((first, second), whole) nonzero c e
        idle =
      let (w1, run1, (c1, e1, moved1)) = one_round event p w nonzero c e idle in
      let (w2, run2, served) = messages-Served event cs (used 1 p) w1 whole nonzero c1 e1 idle in
      rw (first, second)
        (rw
          (
            read_all-append event (message p.pid stat_taken ∷ message p.pid stat_avail ∷ [])
                (messages p.pid cs) p.serv w,
            run1,
            run2,
          )
          (w2, refl, then_Served (connections cs) p w w1 w2 (c1, e1, moved1) served))
  messages-Served event (try_again ∷ cs) p w whole nonzero c e idle =
      messages-Served event cs p w whole.1 nonzero c e idle
  messages-Served event (refused ∷ cs) p w whole nonzero c e idle =
      messages-Served event cs p w whole.1 nonzero c e idle

module _ (ep : Epoll) (ct : ChildTable) {A : Type 0} (service : ℕ → List ℕ → List (List ℕ) → A → A)
    (same_ignoring_case : List ℕ → List ℕ → Bool) where
  -- A child process runs for some turns of its loop, with no write to the pipe cut short or failing. Then the master, in whose
  -- table it is available, reads all that is in the pipe, with nothing else in between: it does not panic, its bookkeeping
  -- is right, the child is available, with as many more uses as it has had connections, and nothing else in the table has changed.
  pub rounds-Served :
      (created : Bool) (argv0 : List ℕ) (options : List (ℕ × List ℕ)) (argv : List (List ℕ))
      (k : ep.K) (app : A) (turns : List (Turn Accepted)) (nested : ℤ) (t : Timers)
      (s : Process ep service same_ignoring_case) (event : ℕ) (p : Proc) (w : World ep ct)
      → single_server_main ep service same_ignoring_case created argv0 options argv p.pid k app
          turns
        ≡ some (ok (nested, t, s))
      → All IsWhole (called turns)
      → (event == 0) ≡ false
      → IsConsistent ep ct w
      → find_in ep ct p.pid w.child_table ≡ some p
      → p.avail ≡ stat_avail
      → Returns
          (read_all ep ct event s.sent p.serv w)
          (Served ep ct (connections (called turns)) p w)
  rounds-Served created argv0 options argv k app turns nested t s event p w run whole nonzero c e
        idle =
      let (o, ends, h) =
        single_server_main-HasTold ep service same_ignoring_case created argv0 options argv p.pid k
          app turns in
      let same : some o ≡ some (ok (nested, t, s)) = sym ends ∙ run in
      let done = h (nested, t, s) (cc) in
      rw done.told (messages-Served ep ct event (called turns) p w whole nonzero c e idle)
