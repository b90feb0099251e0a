-- ===== src/Master/Refresh/Listed.antt =====
-- `master_refresh` of src/master/master_conf.c: which services are on the list after the configuration is read again.
use nowra.Base.{
  ℕ, ◌≡◌, refl, sym, ◌∙◌, true, false, ◌⊎◌, inl, inr, List, [], ◌∷◌, ◌==◌, ℤ, All, All-mono, subst,
  ==_refl, ok, Ensures, Ensures-ok, Ensures-then, Bool-cases,
}
use nowra.Events.Kernel.{Epoll}
use nowra.Master.Table.{ChildTable}
use nowra.Master.{Serv, World}
use nowra.Master.Fields.{Settings, Conf}
use nowra.Master.Service.{Given, names_of, Services, config_loop}
use nowra.Master.Service.Idents.{Ident, Kept}
use nowra.Master.Refresh.{mark_all, sweep, master_refresh, master_stop_service}
use nowra.Master.Refresh.Stopped.{stop_service-Kept}
use nowra.Master.Refresh.Entries.{
  Reads, IsEntry, AllKnown, AllNow, From, Kept-AllKnown, config_loop-From,
}

module _ (ep : Epoll) (ct : ChildTable) where
  abbrev Master : Type 0
  Master = World ep ct

  -- A mark stays while others are set.
  still_marked :
      (head : List ℕ) (r : ℕ) (w : Master)
      → (w.servs r).flags.mark ≡ true
      → ((mark_all ep ct head w).servs r).flags.mark ≡ true
  unfolding mark_all
  still_marked [] r w h = h
  still_marked (s ∷ head) r w h =
      still_marked head r _
        (elim (Bool-cases (s == r)) [ inl here ↦ rw here refl | inr there ↦ rw there h ])

  mark_all-mark :
      (head : List ℕ) (w : Master)
      → All (λ s. ((mark_all ep ct head w).servs s).flags.mark ≡ true) head
  unfolding mark_all
  mark_all-mark [] w = tt
  mark_all-mark (s ∷ head) w = (still_marked head s _ (rw ==_refl refl), mark_all-mark head _)

  -- What stays on the list has no mark, and its name and type are known.
  abbrev pub AllListed : (List ℕ × ℕ → Type 0) → List ℕ → World ep ct → Type 0
  AllListed named head w =
      All (λ s. ((w.servs s).flags.mark ≡ false) × named (names_of w.servs s)) head

  abbrev Left : (List ℕ × ℕ → Type 0) → Master → List ℕ × Master → Type 0
  Left named w (left, w') = Kept ep ct w w' × AllListed named left w'

  listed :
      (named : List ℕ × ℕ → Type 0) (s : ℕ) (w w' : Master)
      → Kept ep ct w w'
      → ((w.servs s).flags.mark ≡ false) × named (names_of w.servs s)
      → ((w'.servs s).flags.mark ≡ false) × named (names_of w'.servs s)
  listed named s w w' kept =
      subst (λ (f : ℕ → Ident). ((f s).2 ≡ false) × named ((f s).0, (f s).1)) (sym kept)

  sweep-Left :
      (named : List ℕ × ℕ → Type 0) (waits : ℕ → List (List (ℕ × ℤ))) (head : List ℕ) (w : Master)
      → AllKnown ep ct named head w
      → Ensures (Left named w) (sweep ep ct waits head w)
  unfolding sweep
  sweep-Left named waits [] w known = Ensures-ok (Left named w) _ (refl, tt)
  sweep-Left named waits (s ∷ head) w known = elim (Bool-cases (w.servs s).flags.mark) [
    | inl marked ↦ rw marked (
        Ensures-then (Left named w) (Kept ep ct w) (master_stop_service ep ct (waits s) s w) _
          (stop_service-Kept ep ct (waits s) s w)
          (λ w' kept left run.
            let (kept', all) =
              sweep-Left named waits head w' (Kept-AllKnown ep ct named head w w' kept known.1) left
                run in
            (kept' ∙ kept, all)))
    | inr unmarked ↦ rw unmarked (
        Ensures-then (Left named w) (Left named w) (sweep ep ct waits head w) _
          (sweep-Left named waits head w known.1)
          (λ (left, w') (kept, all).
            Ensures-ok (Left named w) (s ∷ left, w')
              (kept, (listed named s w w' kept (unmarked, known.0 unmarked), all))))
  ]

  -- Each service on the list is without mark, and that of an entry.
  abbrev pub Refreshed : Settings → Conf → Services ep ct → Type 0
  Refreshed set conf st =
      (es : List Serv) × Reads set conf es × AllListed (λ n. IsEntry n es) st.head st.world

  -- Whatever the system gives, and whatever `waitpid` gives while services are stopped: if `master_refresh` returns, each
  -- service on the list has MASTER_FLAG_MARK off, and its name and type are those of one of the entries that
  -- `get_master_ent` gives, one after the other, until it gives none.
  pub master_refresh-Listed :
      (set : Settings) (given : List Given) (conf : Conf) (waits : ℕ → List (List (ℕ × ℤ)))
      (st st' : Services ep ct)
      → master_refresh ep ct set given conf waits st ≡ ok st'
      → Refreshed set conf st'
  unfolding master_refresh
  master_refresh-Listed set given conf waits st st' run =
      let named : List ℕ × ℕ → Type 0 = λ n. ⊥ in
      let marked : AllNow ep ct named (record st { world = mark_all ep ct st.head st.world }) =
        All-mono _ _ st.head (λ r mark unmarked. absurd cc) (mark_all-mark st.head st.world) in
      Ensures-then (Refreshed set conf) (From ep ct set conf named)
        (config_loop ep ct set given conf _) _
        (config_loop-From ep ct set given conf named _ marked)
        (λ st1 (es, read, known).
          Ensures-then (Refreshed set conf) (Left (λ n. named n ⊎ IsEntry n es) st1.world)
            (sweep ep ct waits st1.head st1.world) _
            (sweep-Left (λ n. named n ⊎ IsEntry n es) waits st1.head st1.world known)
            (λ (left, w) (kept, all). Ensures-ok (Refreshed set conf) _ (
              es,
              read,
              All-mono _ _ left
                  (λ r (unmarked, from).
                    (unmarked, elim from [ inl never ↦ absurd never | inr entry ↦ entry ]))
                  all,
            )))
        st' run
