-- ===== src/Master/Refresh/Entries.antt =====
-- The loop of `master_config` of src/master/master_conf.c: which of the services on the list are those of an entry.
use nowra.Base.{
  if_taken, if_passed, ℕ, ◌≡◌, refl, sym, ap, ◌∙◌, Bool, true, false, ◌&&◌, ◌⊎◌, arith, inl, inr,
  Option, none, some, List, [], ◌∷◌, ◌==◌, All, All-mono, subst, ==_refl, Outcome, ok, undefined,
  Ensures, Ensures-ok, Ensures-abort, Ensures-then, Bool-cases,
}
use nowra.Events.Kernel.{Epoll}
use nowra.Master.Table.{ChildTable}
use nowra.Master.{Serv, World, put_serv}
use nowra.Master.Fields.{Settings, Conf, same_text}
use nowra.Master.Entry.{get_master_ent}
use nowra.Master.Service.{
  Given, names_of, find_service, updated, Services, enter_service, config_entry, config_turn,
  config_loop, master_start_service, master_restart_service,
}
use nowra.Master.Service.Idents.{Ident, ident, idents, Kept, start-Keeps, restart-Keeps}

-- The entries that `get_master_ent` gives, one after the other, until it gives none.
pub data Reads (set : Settings) : Conf → List Serv → Type 0 where
  stop : {conf conf' : Conf} → get_master_ent set conf ≡ ok (none, conf') → Reads set conf []
  more :
      {conf conf' : Conf} {e : Serv} {es : List Serv}
      → get_master_ent set conf ≡ ok (some e, conf')
      → Reads set conf' es
      → Reads set conf (e ∷ es)

-- Some entry has the name and the type.
abbrev pub IsEntry : List ℕ × ℕ → List Serv → Type 0
IsEntry n [] = ⊥
IsEntry n (e ∷ es) = ((e.name, e.type) ≡ n) ⊎ IsEntry n es

-- The name and the type of a service without mark.
abbrev pub Known : (List ℕ × ℕ → Type 0) → Ident → Type 0
Known named i = i.2 ≡ false → named (i.0, i.1)

both : (x y : Bool) → x && y ≡ true → (x ≡ true) × (y ≡ true)
both x y h = (ground arith, ground arith)

same_text-eq : (s t : List ℕ) → same_text s t ≡ true → s ≡ t
unfolding same_text
same_text-eq [] [] h = refl
same_text-eq [] (b ∷ t) h = ground arith
same_text-eq (a ∷ s) [] h = ground arith
same_text-eq (a ∷ s) (b ∷ t) h =
    let (same, rest) = both (a == b) (same_text s t) h in
    let here : a ≡ b = ground arith in
    let there : s ≡ t = same_text-eq s t rest in rw (here, there) refl

same_names-eq : (n m : List ℕ × ℕ) → same_text n.0 m.0 && (n.1 == m.1) ≡ true → n ≡ m
same_names-eq (name, type) (name', type') h =
    let (same, rest) = both _ _ h in
    let here : name ≡ name' = same_text-eq name name' same in
    let there : type ≡ type' = ground arith in rw (here, there) refl

-- The search stops at a service of the name and type, or goes on.
pub find_service-cases :
    (n : List ℕ × ℕ) (r : ℕ) (head : List ℕ) (names : ℕ → List ℕ × ℕ) (s : ℕ)
    → find_service n (r ∷ head) names ≡ some s
    → ((r ≡ s) × (names r ≡ n)) ⊎ (find_service n head names ≡ some s)
unfolding find_service
find_service-cases (name, type) r head names s h =
    elim (Bool-cases (same_text (names r).0 name && ((names r).1 == type))) [
      | inl same ↦
          let first : some r ≡ some s = if_taken _ _ _ same h in
          inl (cc, same_names-eq (names r) (name, type) same)
      | inr away ↦ inr (if_passed _ _ _ away h)
    ]

pub find_service-names :
    (n : List ℕ × ℕ) (head : List ℕ) (names : ℕ → List ℕ × ℕ) (s : ℕ)
    → find_service n head names ≡ some s
    → names s ≡ n
unfolding find_service
find_service-names (name, type) [] names s h = ground arith
find_service-names n (r ∷ head) names s h = elim (find_service-cases n r head names s h) [
  | inl (here, named) ↦ ap names (sym here) ∙ named
  | inr later ↦ find_service-names n head names s later
]

module _ (ep : Epoll) (ct : ChildTable) where
  abbrev Master : Type 0
  Master = World ep ct

  abbrev pub AllKnown : (List ℕ × ℕ → Type 0) → List ℕ → Master → Type 0
  AllKnown named head w = All (λ s. Known named (idents ep ct w s)) head

  -- A write of one service.
  put_serv-AllKnown :
      (named named' : List ℕ × ℕ → Type 0) (s : ℕ) (v : Serv) (w : Master) (head : List ℕ)
      → ((n : List ℕ × ℕ) → named n → named' n)
      → Known named' (ident v)
      → AllKnown named head w
      → AllKnown named' head (put_serv ep ct s v w)
  put_serv-AllKnown named named' s v w head weaker new = All-mono _ _ head (λ r known.
      elim (Bool-cases (s == r)) [
        | inl here ↦ rw here new
        | inr there ↦ rw there (λ unmarked. weaker _ (known unmarked))
      ])

  pub Kept-AllKnown :
      (named : List ℕ × ℕ → Type 0) (head : List ℕ) (w w' : Master)
      → Kept ep ct w w'
      → AllKnown named head w
      → AllKnown named head w'
  Kept-AllKnown named head w w' kept =
      subst (λ (f : ℕ → Ident). All (λ s. Known named (f s)) head) (sym kept)

  -- What the services had, or what the entry has.
  abbrev Or : (List ℕ × ℕ → Type 0) → Serv → List ℕ × ℕ → Type 0
  Or named entry n = named n ⊎ ((entry.name, entry.type) ≡ n)

  abbrev pub AllNow : (List ℕ × ℕ → Type 0) → Services ep ct → Type 0
  AllNow named st = AllKnown named st.head st.world

  enter_service-Known :
      (named : List ℕ × ℕ → Type 0) (given : Given) (entry : Serv) (found : Option ℕ)
      (st : Services ep ct)
      → find_service (entry.name, entry.type) st.head (names_of st.world.servs) ≡ found
      → AllNow named st
      → Ensures (AllNow (Or named entry)) (enter_service ep ct given entry found st)
  unfolding enter_service updated
  enter_service-Known named given entry none st e known =
      let w = put_serv ep ct given.address entry st.world in
      Ensures-then (AllNow (Or named entry)) (Kept ep ct w)
        (master_start_service ep ct given given.address w) _
        (start-Keeps ep ct given given.address w)
        (λ w' kept. Ensures-ok (AllNow (Or named entry)) _ (
          Kept-AllKnown (Or named entry) (given.address ∷ st.head) w w' kept (
            rw ==_refl (λ unmarked. inr refl),
            put_serv-AllKnown named (Or named entry) given.address entry st.world st.head (λ n. inl)
                (λ unmarked. inr refl) known,
          )))
  enter_service-Known named given entry (some s) st e known =
      let w = put_serv ep ct s (updated entry (st.world.servs s)) st.world in
      Ensures-then (AllNow (Or named entry)) (Kept ep ct w) (master_restart_service ep ct given s w)
        _ (restart-Keeps ep ct given s w)
        (λ w' kept. Ensures-ok (AllNow (Or named entry)) _ (
          Kept-AllKnown (Or named entry) st.head w w' kept (
            put_serv-AllKnown named (Or named entry) s (updated entry (st.world.servs s)) st.world
              st.head (λ n. inl)
              (λ unmarked. inr (
                sym (
                  find_service-names (entry.name, entry.type) st.head (names_of st.world.servs) s
                    e)))
              known)))

  -- The entries that were read, and where the services without mark are from.
  abbrev pub From : Settings → Conf → (List ℕ × ℕ → Type 0) → Services ep ct → Type 0
  From set conf named st =
      (es : List Serv) × Reads set conf es × AllNow (λ n. named n ⊎ IsEntry n es) st

  weaken :
      (named named' : List ℕ × ℕ → Type 0) (st : Services ep ct)
      → ((n : List ℕ × ℕ) → named n → named' n)
      → AllNow named st
      → AllNow named' st
  weaken named named' st weaker =
      All-mono _ _ st.head (λ r known unmarked. weaker _ (known unmarked))

  config_turn-From :
      (set : Settings) (rest : Conf → Services ep ct → Outcome (Services ep ct)) (given : Given)
      (conf : Conf) (named : List ℕ × ℕ → Type 0) (st : Services ep ct) (read : Option Serv × Conf)
      → get_master_ent set conf ≡ ok read
      → AllNow named st
      → ((conf' : Conf) (named' : List ℕ × ℕ → Type 0) (st' : Services ep ct)
          → AllNow named' st'
          → Ensures (From set conf' named') (rest conf' st'))
      → Ensures (From set conf named) (config_turn ep ct rest given st read)
  unfolding config_turn config_entry
  config_turn-From set rest given conf named st (none, conf') run known k =
      Ensures-ok (From set conf named) st
        ([], stop run, weaken named (λ n. named n ⊎ IsEntry n []) st (λ n. inl) known)
  config_turn-From set rest given conf named st (some entry, conf') run known k =
      Ensures-then (From set conf named) (AllNow (Or named entry))
        (config_entry ep ct given entry st) _
        (enter_service-Known named given entry _ st refl known)
        (λ st' known' st'' run'.
          let (es, read, all) = k conf' (Or named entry) st' known' st'' run' in
          (
            entry ∷ es,
            more run read,
            weaken (λ n. Or named entry n ⊎ IsEntry n es) (λ n. named n ⊎ IsEntry n (entry ∷ es))
                st''
                (λ n from. elim from [
                  | inl first ↦ elim first [ inl before ↦ inl before | inr this ↦ inr (inl this) ]
                  | inr later ↦ inr (inr later)
                ])
                all,
          ))

  pub config_loop-From :
      (set : Settings) (given : List Given) (conf : Conf) (named : List ℕ × ℕ → Type 0)
      (st : Services ep ct)
      → AllNow named st
      → Ensures (From set conf named) (config_loop ep ct set given conf st)
  unfolding config_loop
  config_loop-From set [] conf named st known = Ensures-abort (From set conf named) undefined
  config_loop-From set (given ∷ others) conf named st known =
      Ensures-then (From set conf named) (λ read. get_master_ent set conf ≡ ok read)
        (get_master_ent set conf) _ (λ read run. run)
        (λ read run.
          config_turn-From set (config_loop ep ct set others) given conf named st read run known
            (λ conf' named' st' known'. config_loop-From set others conf' named' st' known'))
