-- ===== src/Master/Spawn/Reap.antt =====
-- `master_reap_child` of src/master/master_spawn.c: the children that have ended are taken out.
pub mod Fewer
use nowra.Base.{
  map, weight, sym, ℕ, ◌+◌, ◌-◌, ◌<◌, ◌≤◌, ◌≡◌, refl, ap, ◌∙◌, Bool, true, false, ◌&&◌, Option,
  none, some, List, [], ◌∷◌, arith, ◌==◌, ◌⊎◌, if◌then◌else◌, ==_refl, ℤ, pos, decr, decr-pos,
  ltb_ℤ, eqb_ℤ, to_nat, Bool-cases, Option-cases, inl, inr, ok, abort, panic, Returns,
}
use nowra.Events.Kernel.{Epoll}
use nowra.Master.Table.{Proc, ChildTable, stat_taken, stat_avail}
use nowra.Master.{World, put_serv, find_in, limit_ok, master_avail_listen, master_avail_less}
use nowra.Master.Listening.{is_nonneg}
use nowra.Master.Counts.{
  Counts-cong, Counts-update, at, is_child_of, is_idle_child_of, has_odd_status, load, TableIsValid,
  IsCounted, IsConsistent, find_in-pid, load-store_in, find_in-store_in,
}
use nowra.Master.Avail.{avail_listen-Leaves, avail_less-Leaves}
use nowra.Master.Spawn.Throttle.{throttle-Leaves}
use nowra.Master.Spawn.{
  uncount, delete_in, bad_startup, master_delete_child, reap_one, master_reap_child,
}
use nowra.Master.Spawn.Delete.{master_delete_child-IsConsistent}

module _ (ep : Epoll) (ct : ChildTable) where
  -- The state after a child was taken out: the bookkeeping is right, and the table holds what it held
  -- without the child.
  abbrev Reaped : Proc → World ep ct → World ep ct → Type 0
  Reaped p w w' =
      IsConsistent ep ct w'
      × ((f : Proc → ℕ) → load ep ct f w'.child_table + f p ≡ load ep ct f w.child_table)

  reap_one-Reaped :
      (p : Proc) (w : World ep ct) (status : ℤ)
      → IsConsistent ep ct w
      → find_in ep ct p.pid w.child_table ≡ some p
      → Returns (reap_one ep ct (some p) status w) (Reaped p w)
  unfolding reap_one
  reap_one-Reaped p w status c e = elim (Bool-cases (bad_startup ep ct p status w)) [
    | inr good ↦ rw good (master_delete_child-IsConsistent ep ct p w c e)
    | inl bad ↦
        let (w', run, (c', tb)) = throttle-Leaves ep ct p.serv w c in
        let (w'', run', (c'', gone)) =
          master_delete_child-IsConsistent ep ct p w' (rw tb c') (rw tb e) in
        rw (bad, run, run') (w'', refl, (c'', λ f. gone f ∙ rw tb))
  ]

  -- The bookkeeping is right, and the table holds what it held without the children of these process ids.
  abbrev pub AllReaped : List ℕ → World ep ct → World ep ct → Type 0
  AllReaped pids w w' =
      IsConsistent ep ct w'
      × ((ps : List Proc) × (map (λ (p : Proc). p.pid) ps ≡ pids)
          × ((f : Proc → ℕ)
              → load ep ct f w'.child_table + weight f ps ≡ load ep ct f w.child_table))

  pub master_reap_child-IsConsistent :
      (dead : List (ℕ × ℤ)) (w : World ep ct)
      → IsConsistent ep ct w
      → Returns (master_reap_child ep ct dead w) (AllReaped (map (λ (d : ℕ × ℤ). d.0) dead) w)
        ⊎ (master_reap_child ep ct dead w ≡ abort (panic "master_reap: unknown pid: %d"))
  unfolding master_reap_child reap_one
  master_reap_child-IsConsistent [] w c = inl (w, refl, (c, ([], refl, λ f. omega arith)))
  master_reap_child-IsConsistent ((pid, status) ∷ more) w c =
      elim (Option-cases (find_in ep ct pid w.child_table)) [
        | inl e ↦ rw e (inr refl)
        | inr (p, e) ↦
            let key = find_in-pid ep ct w.child_table pid p c.table e in
            let (w', run, (c', gone)) =
              reap_one-Reaped p w status c (ap (λ k. find_in ep ct k w.child_table) key ∙ e) in
            rw (e, run)
              (elim (master_reap_child-IsConsistent more w' c') [
                | inl (w'', run', (c'', (ps, pids, less))) ↦ inl (
                  w'',
                  run',
                  (
                    c'',
                    (
                      p ∷ ps,
                      rw pids (ap (λ (k : ℕ). k ∷ map (λ (d : ℕ × ℤ). d.0) more) key),
                      λ f. omega (arith, less f, gone f),
                    ),
                  ),
                )
                | inr unknown ↦ inr unknown
              ])
      ]
