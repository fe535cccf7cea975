-- ===== src/Sync/Exits/Marks.antt =====
-- The marks of exits, and the steps of the live sync that touch them.
use Prim.Native.String.{String}
use mathlib.Core.Path.{subst}
use delta_paper_trader.Prelude.{
  none, some, Option-cases, ℕ, ◌==◌, ◌≡◌, refl, Bool, true, not, ◌||◌, Option, List, [], ◌∷◌, map,
  all, if◌then◌else◌, Bool-cases, inl, inr, arith,
}
use delta_paper_trader.Float.{Float}
use delta_paper_trader.Models.{Position}
use delta_paper_trader.Executor.{ExitResult}
use delta_paper_trader.Journal.{Fill}
use delta_paper_trader.Sim.{MarketView}
use delta_paper_trader.Sync.{Hit, member, in_group}
use delta_paper_trader.Sync.Exits.{
  ExitReason, Task, LiveState, begin_exit, register_exit, start_exit, maybe_trigger, manual_exit,
  close_gone, finish_exit, change_group,
}

module _ {W : Type 0} where
  -- The row of the group, if there is one, is marked.
  abbrev pub marked_row : ℕ → Position W → Bool
  marked_row pid p = not (p.id == pid) || p.exiting

  abbrev pub is_exiting : ℕ → LiveState W → Bool
  is_exiting pid st = all (marked_row pid) st.groups

  -- One step of the sync, at any market and time. A start of an exit that waits for the commit or the alert is
  -- `begun` and later `resumed`, with any steps in between; a handler whose starts do not wait is one step.
  pub data Step ⦃f : Float W⦄ : LiveState W → LiveState W → Type 0 where
    triggered :
        (mv : MarketView W) (mark_age : String → Option W) (tick_of : String → W) (p : Position W)
        (st : LiveState W)
        → Step st (maybe_trigger mv mark_age tick_of p st)
    asked :
        (mv : MarketView W) (mark_age : String → Option W) (tick_of : String → W) (pid : ℕ)
        (st : LiveState W)
        → Step st (manual_exit mv mark_age tick_of pid st).1
    went_flat :
        (mv : MarketView W) (tick_of : String → W) (now : ℕ) (fills : List (Fill W))
        (gone : List Hit) (st : LiveState W)
        → Step st (close_gone mv tick_of now fills gone st)
    ended :
        (mv : MarketView W) (tick_of : String → W) (now : ℕ) (fills : List (Fill W)) (task : Task W)
        (res : ExitResult) (st : LiveState W)
        → Step st (finish_exit mv tick_of now fills task res st)
    begun :
        (tick_of : String → W) (p : Position W) (why : ExitReason) (st st' : LiveState W)
        → begin_exit tick_of p why st ≡ some st'
        → Step st st'
    resumed :
        (tick_of : String → W) (p : Position W) (st : LiveState W)
        → Step st (register_exit tick_of p st)

  -- Any number of steps.
  pub data Steps ⦃f : Float W⦄ : LiveState W → LiveState W → Type 0 where
    stay : (st : LiveState W) → Steps st st
    go : (a b c : LiveState W) → Step a b → Steps b c → Steps a c

module _ {W : Type 0} where
  abbrev ExitingIn : ℕ → Option (LiveState W) → Type 0
  ExitingIn pid none = Unit
  ExitingIn pid (some st) = is_exiting pid st ≡ true

  -- A change of a group keeps its key and its mark.
  abbrev Steady : (Position W → Position W) → Type 0
  Steady h = (p : Position W) → ((h p).id ≡ p.id) × ((not p.exiting || (h p).exiting) ≡ true)

  pub is_exiting-map :
      (pid : ℕ) (h : Position W → Position W) (groups : List (Position W))
      → Steady h
      → all (marked_row pid) groups ≡ true
      → all (marked_row pid) (map h groups) ≡ true
  is_exiting-map pid h [] s k = refl
  is_exiting-map pid h (p ∷ groups) s k =
      let (same, keep) = s p in
      let here : marked_row pid p ≡ true = ground arith in
      let rest : all (marked_row pid) groups ≡ true = ground arith in
      let next : marked_row pid (h p) ≡ true = rw same (ground arith) in
      rw next (is_exiting-map pid h groups s rest)

  in_group-Steady :
      (pid : ℕ) (g : Position W → Position W)
      → Steady g
      → Steady (λ (p : Position W). if p.id == pid then g p else p)
  in_group-Steady pid g s p = elim (Bool-cases (p.id == pid)) [
    | inl e ↦ rw e (s p)
    | inr e ↦ rw e (refl, ground arith)
  ]

module _ {W : Type 0} where
  pub change_group-exiting :
      (pid k : ℕ) (g : Position W → Position W) (st : LiveState W)
      → Steady g
      → is_exiting pid st ≡ true
      → is_exiting pid (change_group k g st) ≡ true
  change_group-exiting pid k g st s h = is_exiting-map pid _ st.groups (in_group-Steady k g s) h

  -- Marking a group marks each row with its key.
  mark_group :
      (pid : ℕ) (g : Position W → Position W) (groups : List (Position W))
      → ((p : Position W) → ((g p).id ≡ p.id) × ((g p).exiting ≡ true))
      → all (marked_row pid) (in_group pid g groups) ≡ true
  mark_group pid g [] on = refl
  mark_group pid g (p ∷ groups) on = elim (Bool-cases (p.id == pid)) [
    | inl e ↦ let (same, done_) = on p in rw (e, done_) (ground (arith, mark_group pid g groups on))
    | inr e ↦ rw (e, e) (mark_group pid g groups on)
  ]

module _ {W : Type 0} ⦃f : Float W⦄ (tick_of : String → W) where
  pub begin_exit-marks :
      (p : Position W) (why : ExitReason) (st st' : LiveState W)
      → begin_exit tick_of p why st ≡ some st'
      → is_exiting p.id st' ≡ true
  unfolding begin_exit
  begin_exit-marks p why st st' h = elim (Bool-cases (member p.id st.running)) [
    | inl e ↦ let k : none ≡ some st' = rw e at h in cc
    | inr e ↦
        let k = rw e at h in
        subst (λ (o : Option (LiveState W)). ExitingIn p.id o) k
          (mark_group p.id _ st.groups (λ q. (refl, refl)))
  ]

  pub begin_exit-exiting :
      (pid : ℕ) (p : Position W) (why : ExitReason) (st st' : LiveState W)
      → begin_exit tick_of p why st ≡ some st'
      → is_exiting pid st ≡ true
      → is_exiting pid st' ≡ true
  unfolding begin_exit
  begin_exit-exiting pid p why st st' h m = elim (Bool-cases (member p.id st.running)) [
    | inl e ↦ let k : none ≡ some st' = rw e at h in cc
    | inr e ↦
        let k = rw e at h in
        subst (λ (o : Option (LiveState W)). ExitingIn pid o) k
          (is_exiting-map pid _ st.groups (in_group-Steady p.id _ (λ q. (refl, ground arith))) m)
  ]

  pub start_exit-exiting :
      (pid : ℕ) (p : Position W) (why : ExitReason) (st : LiveState W)
      → is_exiting pid st ≡ true
      → is_exiting pid (start_exit tick_of p why st).1 ≡ true
  unfolding start_exit register_exit
  start_exit-exiting pid p why st h = elim (Option-cases (begin_exit tick_of p why st)) [
    | inl n ↦ rw n h
    | inr s ↦ let (st', e) = s in rw e (begin_exit-exiting pid p why st st' e h)
  ]
