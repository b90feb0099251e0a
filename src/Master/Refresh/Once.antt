-- ===== src/Master/Refresh/Once.antt =====
-- The last loop of `master_refresh` of src/master/master_conf.c keeps a list on which no two services have the same name
-- and type.
use nowra.Base.{
  All, ◌≢◌, ℕ, refl, subst, ◌∙◌, List, [], ◌∷◌, ℤ, Ensures, Ensures-ok, Ensures-if, Ensures-then,
}
use nowra.Events.Kernel.{Epoll}
use nowra.Master.Table.{ChildTable}
use nowra.Master.{World}
use nowra.Master.Service.{names_of}
use nowra.Master.Service.Idents.{Kept, same_names}
use nowra.Master.Service.Names.{Unique}
use nowra.Master.Refresh.{sweep, master_stop_service}
use nowra.Master.Refresh.Stopped.{stop_service-Kept}

-- The list has nothing new.
abbrev NoMore : List ℕ → List ℕ → Type 1
NoMore head left = (P : ℕ → Type 0) → All P head → All P left

module _ (ep : Epoll) (ct : ChildTable) where
  abbrev Master : Type 0
  Master = World ep ct

  -- What the loop does to the names on the list.
  abbrev pub Once : List ℕ → World ep ct → List ℕ × World ep ct → Type 1
  Once head w (left, w') =
      Kept ep ct w w'
      × NoMore head left
      × (Unique head (names_of w.servs) → Unique left (names_of w.servs))

  pub sweep-Once :
      (waits : ℕ → List (List (ℕ × ℤ))) (head : List ℕ) (w : World ep ct)
      → Ensures (Once head w) (sweep ep ct waits head w)
  unfolding sweep
  sweep-Once waits [] w = Ensures-ok (Once [] w) _ (refl, (λ P h. h), λ u. u)
  sweep-Once waits (s ∷ head) w =
      Ensures-if (Once (s ∷ head) w) (w.servs s).flags.mark _ _
        (Ensures-then (Once (s ∷ head) w) (Kept ep ct w) (master_stop_service ep ct (waits s) s w) _
          (stop_service-Kept ep ct (waits s) s w)
          (λ w' kept (left, w'') run.
            let (kept', less, once) = sweep-Once waits head w' (left, w'') run in
            let names = same_names ep ct w w' kept in
            (
              kept' ∙ kept,
              (λ P h. less P h.1),
              λ u. subst (λ names. Unique head names → Unique left names) names once u.1,
            )))
        (Ensures-then (Once (s ∷ head) w) (Once head w) (sweep ep ct waits head w) _
          (sweep-Once waits head w)
          (λ (left, w') (kept, less, once).
            Ensures-ok (Once (s ∷ head) w) (s ∷ left, w')
              (
                kept,
                (λ P h. (h.0, less P h.1)),
                λ u. (less (λ r. names_of w.servs r ≢ names_of w.servs s) u.0, once u.1),
              )))
