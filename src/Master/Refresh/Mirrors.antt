-- ===== src/Master/Refresh/Mirrors.antt =====
-- `master_refresh` of src/master/master_conf.c: the list has the services of the entries of the configuration, each once.
use nowra.Base.{
  ℕ, ◌≡◌, refl, sym, ap, subst, ◌∙◌, false, inl, inr, List, [], ◌∷◌, ℤ, All, All-mono, ok, Ensures,
  Ensures-ok, Ensures-if, Ensures-then,
}
use nowra.Events.Kernel.{Epoll}
use nowra.Master.Table.{ChildTable}
use nowra.Master.{Serv, World}
use nowra.Master.Fields.{Settings, Conf}
use nowra.Master.Service.{Given, names_of, Services, config_loop}
use nowra.Master.Service.Idents.{same_names, Ident, idents, Kept}
use nowra.Master.Service.Names.{Unique, NotIn, Distinct, IsUnique}
use nowra.Master.Refresh.{mark_all, sweep, master_refresh, master_stop_service}
use nowra.Master.Refresh.Stopped.{stop_service-Kept, sweep-Kept}
use nowra.Master.Refresh.Listed.{AllListed, master_refresh-Listed}
use nowra.Master.Keeps.{update-view}
use nowra.Master.Refresh.Entries.{Reads, IsEntry}
use nowra.Master.Refresh.Served.{IsServed, Serves, Enters, Kept-IsServed, config_loop-Enters}
use nowra.Master.Refresh.Once.{Once, sweep-Once}
use nowra.Master.Service.Names.{config_loop-IsUnique}

module _ (ep : Epoll) (ct : ChildTable) where
  abbrev Master : Type 0
  Master = World ep ct

  sweep-Serves :
      (n : List ℕ × ℕ) (waits : ℕ → List (List (ℕ × ℤ))) (head : List ℕ) (w : Master)
      → IsServed n (idents ep ct w) head
      → Ensures (λ left. IsServed n (idents ep ct left.1) left.0) (sweep ep ct waits head w)
  unfolding sweep
  sweep-Serves n waits [] w never = absurd never
  sweep-Serves n waits (s ∷ head) w (inl here) =
      let stays : (w.servs s).flags.mark ≡ false = ap (λ (i : Ident). i.2) here in
      rw stays (
        Ensures-then _ (λ left. Kept ep ct w left.1) (sweep ep ct waits head w) _
          (sweep-Kept ep ct waits head w)
          (λ (left, w') kept.
            Ensures-ok (λ left. IsServed n (idents ep ct left.1) left.0) (s ∷ left, w')
              (inl (ap (λ (f : ℕ → Ident). f s) kept ∙ here))))
  sweep-Serves n waits (s ∷ head) w (inr there) =
      Ensures-if _ (w.servs s).flags.mark _ _
        (Ensures-then _ (Kept ep ct w) (master_stop_service ep ct (waits s) s w) _
          (stop_service-Kept ep ct (waits s) s w)
          (λ w' kept. sweep-Serves n waits head w' (Kept-IsServed ep ct n head w w' kept there)))
        (Ensures-then _ (λ left. IsServed n (idents ep ct left.1) left.0) (sweep ep ct waits head w)
          _ (sweep-Serves n waits head w there)
          (λ (left, w') served.
            Ensures-ok (λ left. IsServed n (idents ep ct left.1) left.0) (s ∷ left, w')
              (inr served)))

  -- Marking changes no name and no type.
  mark_all-names :
      (head : List ℕ) (w : Master) → names_of (mark_all ep ct head w).servs ≡ names_of w.servs
  unfolding mark_all
  mark_all-names [] w = refl
  mark_all-names (s ∷ head) w =
      mark_all-names head _ ∙ update-view (λ v. (v.name, v.type)) w.servs s _ refl

  -- The list has the services of the entries, all without mark: each service is that of an entry, each entry has a
  -- service, and no two services have the same name and type.
  abbrev pub Mirrors : Settings → Conf → Services ep ct → Type 0
  Mirrors set conf st =
      (es : List Serv) × Reads set conf es
      × AllListed ep ct (λ n. IsEntry n es) st.head st.world
      × All (λ (e : Serv). IsServed (e.name, e.type) (idents ep ct st.world) st.head) es
      × IsUnique ep ct st

  marked : Services ep ct → Services ep ct
  marked st = record st { world = mark_all ep ct st.head st.world }

  marked-IsUnique : (st : Services ep ct) → IsUnique ep ct st → IsUnique ep ct (marked st)
  unfolding marked
  marked-IsUnique st = subst (Unique st.head) (sym (mark_all-names st.head st.world))

  refresh-IsUnique :
      (set : Settings) (given : List Given) (conf : Conf) (waits : ℕ → List (List (ℕ × ℤ)))
      (st : Services ep ct)
      → IsUnique ep ct st
      → All (λ g. NotIn st.head g.address) given
      → Distinct given
      → Ensures (IsUnique ep ct) (master_refresh ep ct set given conf waits st)
  unfolding master_refresh marked
  refresh-IsUnique set given conf waits st u fresh d =
      Ensures-then _ (IsUnique ep ct) (config_loop ep ct set given conf (marked st)) _
        (λ st1 run.
          config_loop-IsUnique ep ct set given conf (marked st) st1 (marked-IsUnique st u) fresh d
            run)
        (λ st1 u1.
          Ensures-then _ (Once ep ct st1.head st1.world) (sweep ep ct waits st1.head st1.world) _
            (sweep-Once ep ct waits st1.head st1.world)
            (λ (left, w) (kept, less, once).
              Ensures-ok (IsUnique ep ct) _
                (subst (Unique left) (sym (same_names ep ct st1.world w kept)) (once u1))))

  refresh-Serves :
      (set : Settings) (given : List Given) (conf : Conf) (waits : ℕ → List (List (ℕ × ℤ)))
      (es : List Serv) (st : Services ep ct)
      → Reads set conf es
      → IsUnique ep ct st
      → All (λ g. NotIn st.head g.address) given
      → Distinct given
      → Ensures
          (λ st'. All (λ (e : Serv). Serves ep ct (e.name, e.type) st') es)
          (master_refresh ep ct set given conf waits st)
  unfolding master_refresh marked
  refresh-Serves set given conf waits es st reads u fresh d =
      Ensures-then _ (Enters ep ct es (marked st)) (config_loop ep ct set given conf (marked st)) _
        (config_loop-Enters ep ct set given conf es (marked st) reads (marked-IsUnique st u) fresh
          d)
        (λ st1 (all, kept) st' run.
          All-mono _ _ es
            (λ e served.
              Ensures-then (Serves ep ct (e.name, e.type))
                (λ left. IsServed (e.name, e.type) (idents ep ct left.1) left.0)
                (sweep ep ct waits st1.head st1.world) _
                (sweep-Serves (e.name, e.type) waits st1.head st1.world served)
                (λ (left, w) served. Ensures-ok (Serves ep ct (e.name, e.type)) _ served) st' run)
            all)

  -- If no two services on the list have the same name and type, the structures of new entries get addresses that are not
  -- on the list and differ, and `master_refresh` returns, the list has the services of the entries that `get_master_ent`
  -- gives, one after the other, until it gives none: each service on it has MASTER_FLAG_MARK off and the name and type of
  -- an entry, for each entry there is a service of its name and type with the mark off, and no two services on the list have the same name and type.
  pub master_refresh-Mirrors :
      (set : Settings) (given : List Given) (conf : Conf) (waits : ℕ → List (List (ℕ × ℤ)))
      (st st' : Services ep ct)
      → IsUnique ep ct st
      → All (λ g. NotIn st.head g.address) given
      → Distinct given
      → master_refresh ep ct set given conf waits st ≡ ok st'
      → Mirrors set conf st'
  master_refresh-Mirrors set given conf waits st st' u fresh d run =
      let (es, reads, listed) = master_refresh-Listed ep ct set given conf waits st st' run in
      (
        es,
        reads,
        listed,
        refresh-Serves set given conf waits es st reads u fresh d st' run,
        refresh-IsUnique set given conf waits st u fresh d st' run,
      )
