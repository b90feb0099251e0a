-- ===== src/Master/Service/Enough.antt =====
-- The loop of `master_config` of src/master/master_conf.c takes one entry a turn: with more turns given than the file has
-- lines, it does not run out of them.
use nowra.Base.{
  ℕ, ◌<◌, ◌≡◌, refl, Option, none, some, List, [], ◌∷◌, ◌++◌, arith, length, Outcome, ok, abort,
  ◌>>=◌, Ensures,
}
use nowra.Events.Kernel.{Epoll}
use nowra.Master.{Serv}
use nowra.Master.Table.{ChildTable}
use nowra.Master.Fields.{Settings, Conf}
use nowra.Master.Entry.{get_master_ent}
use nowra.Master.Entry.Fresh.{IsRead, get_master_ent-Ensures}
use nowra.Master.Service.{Given, Services, config_entry, config_turn, config_loop}

module _ {A B : Type 0} where
  bind_same :
      (P : B → Type 0) (r : Outcome B) (f g : B → Outcome A)
      → Ensures P r
      → ((b : B) → P b → f b ≡ g b)
      → r >>= f ≡ r >>= g
  bind_same P (ok b) f g h e = e b (h b refl)
  bind_same P (abort x) f g h e = refl

module _ (ep : Epoll) (ct : ChildTable) (set : Settings) where
  turn_same :
      (f g : Conf → Services ep ct → Outcome (Services ep ct)) (given : Given) (st : Services ep ct)
      (fp : List (List ℕ)) (read : Option Serv × Conf)
      → IsRead set fp read
      → ((conf : Conf) (left : List (List ℕ)) (st' : Services ep ct)
          → conf.master_fp ≡ some left
          → length left < length fp
          → f conf st' ≡ g conf st')
      → config_turn ep ct f given st read ≡ config_turn ep ct g given st read
  unfolding config_turn
  turn_same f g given st fp (none, conf) h e = refl
  turn_same f g given st fp (some entry, conf) h e =
      let (new, (left, open_file, less)) = h in
      bind_same (λ st'. Unit) (config_entry ep ct given entry st) (f conf) (g conf) (λ st' run. tt)
        (λ st' any. e conf left st' open_file less)

  -- If the file is open and what is given reaches for more entries than it has lines, the loop comes to its result
  -- without whatever is given beyond that.
  pub config_loop-enough :
      (given extra : List Given) (conf : Conf) (st : Services ep ct) (fp : List (List ℕ))
      → conf.master_fp ≡ some fp
      → length fp < length given
      → config_loop ep ct set (given ++ extra) conf st ≡ config_loop ep ct set given conf st
  unfolding config_loop
  config_loop-enough [] extra conf st fp open_file h = absurd (omega arith)
  config_loop-enough (given ∷ more) extra conf st fp open_file h =
      bind_same (IsRead set fp) (get_master_ent set conf) _ _
        (get_master_ent-Ensures set conf fp open_file)
        (λ read r.
          turn_same (config_loop ep ct set (more ++ extra)) (config_loop ep ct set more) given st fp
            read r
            (λ conf' left st' e less.
              config_loop-enough more extra conf' st' left e (omega (arith, less, h))))
