-- ===== src/Master/Spawn/Reap/Fewer.antt =====
-- A call of `master_reap_child` of src/master/master_spawn.c that finds a dead child makes the table smaller.
use nowra.Base.{
  ℕ, ◌<◌, ◌≡◌, refl, ap, ◌∙◌, inl, inr, ◌⊎◌, Option-cases, List, [], ◌∷◌, ℤ, arith, Outcome, abort,
  panic, Returns, ◌≢◌,
}
use nowra.Events.Kernel.{Epoll}
use nowra.Master.Table.{Proc, ChildTable}
use nowra.Master.{World, find_in}
use nowra.Master.Counts.{load, IsConsistent, find_in-pid}
use nowra.Master.Spawn.{master_reap_child, reap_one}
use nowra.Master.Spawn.Reap.{reap_one-Reaped, master_reap_child-IsConsistent}
use nowra.Master.Refresh.Children.{gone}

-- Every child counts.
abbrev pub every_child : Proc → ℕ
every_child p = 1

module _ (ep : Epoll) (ct : ChildTable) where
  abbrev Master : Type 0
  Master = World ep ct

  -- `waitpid` gave a process id that is not in the table.
  abbrev pub Unknown : Outcome Master → Type 0
  Unknown r = r ≡ abort (panic "master_reap: unknown pid: %d")

  -- The bookkeeping is right, and the table has fewer children.
  abbrev pub Fewer : Master → Master → Type 0
  Fewer w w' =
      IsConsistent ep ct w'
      × (load ep ct every_child w'.child_table < load ep ct every_child w.child_table)

  pub reap_child-Fewer :
      (dead : List (ℕ × ℤ)) (w : Master)
      → dead ≢ []
      → IsConsistent ep ct w
      → Returns (master_reap_child ep ct dead w) (Fewer w)
        ⊎ Unknown (master_reap_child ep ct dead w)
  unfolding master_reap_child reap_one
  reap_child-Fewer [] w h c = absurd (h refl)
  reap_child-Fewer ((pid, status) ∷ more) w h c =
      elim (Option-cases (find_in ep ct pid w.child_table)) [
        | inl e ↦ rw e (inr refl)
        | inr (p, e) ↦
            let key = find_in-pid ep ct w.child_table pid p c.table e in
            let (w', run, (c', gone)) =
              reap_one-Reaped ep ct p w status c
                (ap (λ k. find_in ep ct k w.child_table) key ∙ e) in
            rw (e, run)
              (elim (master_reap_child-IsConsistent ep ct more w' c') [
                | inl (w'', run', (c'', (ps, pids, less))) ↦
                    inl (w'', run', (c'', omega (arith, less every_child, gone every_child)))
                | inr unknown ↦ inr unknown
              ])
      ]
