-- ===== src/Exit/Spec.antt =====
-- What an exit decision promises: a leg at its stop is closed, and nothing is closed without a cause.
use delta_paper_trader.Prelude.{
  none, ℕ, ◌≡◌, ◌⊎◌, inl, inr, Bool, true, false, not, ◌&&◌, Option, some, List, map, filter, any,
  In, In-filter, In-filter_inv, In-any, In-map, In-map_inv, In-is_empty, arith, Bool-cases, sym,
}
use delta_paper_trader.Float.{Float, ◌≼◌}
use delta_paper_trader.Types.{opened, leg}
use delta_paper_trader.Exit.{
  reached_target, ExitLeg, CombinedStop, Reason, ExitDecision, none_due, suspended, close_strategy,
  close_legs, combined_floor, open_leg, reached_stop, is_strategy, is_triggered, leg_decision,
  evaluate_exit,
}

-- The decision closes the leg `i`.
abbrev pub Closes : ℕ → ExitDecision → Type 0
Closes i none_due = ⊥
Closes i suspended = ⊥
Closes i (close_strategy r) = Unit
Closes i (close_legs r ids) = In i ids

-- The engine acts: the feed is fresh, or the strategy opted into the hard stop and the grace is over.
abbrev pub Acts : Bool → Bool → Bool → Type 0
Acts stale opted grace = (stale ≡ false) ⊎ ((opted ≡ true) × (grace ≡ true))

module _ {W : Type 0} ⦃f : Float W⦄ where
  -- The P&L is at or below a stop, or at or above a target.
  abbrev pub IsAtStop : Option W → W → Type 0
  IsAtStop none pnl = ⊥
  IsAtStop (some s) pnl = pnl ≼ s

  abbrev pub IsAtTarget : Option W → W → Type 0
  IsAtTarget none pnl = ⊥
  IsAtTarget (some t) pnl = t ≼ pnl

  -- The leg has auto-exit and is at its stop, or at its target on a fresh feed.
  abbrev pub IsDue : Bool → ExitLeg W → Type 0
  IsDue stale lg =
      (lg.auto_exit ≡ true)
      × (IsAtStop lg.stop_pnl lg.pnl ⊎ ((stale ≡ false) × IsAtTarget lg.target_pnl lg.pnl))

  at_stop : (o : Option W) (pnl : W) → reached_stop o pnl ≡ true → IsAtStop o pnl
  at_stop none pnl h = cc
  at_stop (some s) pnl h = h

  at_target : (o : Option W) (pnl : W) → reached_target o pnl ≡ true → IsAtTarget o pnl
  at_target none pnl h = cc
  at_target (some t) pnl h = h

  stop_at : (o : Option W) (pnl : W) → IsAtStop o pnl → reached_stop o pnl ≡ true
  stop_at none pnl h = absurd h
  stop_at (some s) pnl h = h

  target_at : (o : Option W) (pnl : W) → IsAtTarget o pnl → reached_target o pnl ≡ true
  target_at none pnl h = absurd h
  target_at (some t) pnl h = h

  leg_decision-Closes :
      (hard : Bool) (lg : ExitLeg W) (legs : List (ExitLeg W))
      → In lg legs
      → is_triggered (not hard) lg ≡ true
      → Closes lg.id (leg_decision hard legs)
  unfolding leg_decision
  leg_decision-Closes hard lg legs m t =
      let p = is_triggered (not hard) in
      let ts = filter p legs in
      let i = In-filter p lg legs m t in
      rw (In-is_empty lg ts i)
        (elim (Bool-cases (any (λ (l : ExitLeg W). is_strategy l.close_scope) ts)) [
          | inl e ↦ rw e tt
          | inr e ↦ rw e (In-map (λ (l : ExitLeg W). l.id) lg ts i)
        ])

  -- Whenever the engine acts, an open leg with auto-exit whose P&L is at or below its stop is closed,
  -- by itself or with the whole strategy.
  pub stop_is_enforced :
      (legs : List (ExitLeg W)) (lg : ExitLeg W) (s net margin : W) (stop : Option (CombinedStop W))
      (combined stale opted grace : Bool)
      → In lg legs
      → lg.status ≡ opened
      → lg.auto_exit ≡ true
      → lg.stop_pnl ≡ some s
      → lg.pnl ≼ s
      → Acts stale opted grace
      → Closes lg.id (evaluate_exit legs net margin stop combined stale opted grace)
  unfolding evaluate_exit
  stop_is_enforced legs lg s net margin stop combined stale opted grace m op auto st hit acts =
      let os = filter open_leg legs in
      let i = In-filter open_leg lg legs m (ground arith) in
      let hard = stale && (opted && grace) in
      let t : is_triggered (not hard) lg ≡ true = unfold is_triggered in ground arith in
      let c = leg_decision-Closes hard lg os i t in
      let ne = In-is_empty lg os i in
      let still : (stale && not hard) ≡ false = ground arith in
      rw (ne, still)
        (elim (Bool-cases (combined && reached_stop (combined_floor stop margin) net)) [
          | inl e ↦ rw e tt
          | inr e ↦ rw e c
        ])

  leg_decision_close_legs :
      (hard : Bool) (legs : List (ExitLeg W)) {r : Reason} {ids : List ℕ}
      → leg_decision hard legs ≡ close_legs r ids
      → let ts = filter (is_triggered (not hard)) legs in
        (ids ≡ map (λ (l : ExitLeg W). l.id) ts)
        × (any (λ (l : ExitLeg W). is_strategy l.close_scope) ts ≡ false)
  unfolding leg_decision
  leg_decision_close_legs hard legs e = ground arith

  evaluate_exit_close_legs :
      (legs : List (ExitLeg W)) (net margin : W) (stop : Option (CombinedStop W))
      (combined stale opted grace : Bool) {r : Reason} {ids : List ℕ}
      → evaluate_exit legs net margin stop combined stale opted grace ≡ close_legs r ids
      → (leg_decision stale (filter open_leg legs) ≡ close_legs r ids) × Acts stale opted grace
  unfolding evaluate_exit
  evaluate_exit_close_legs legs net margin stop combined stale opted grace e = ground arith

  pub close_legs_from :
      (legs : List (ExitLeg W)) (net margin : W) (stop : Option (CombinedStop W))
      (combined stale opted grace : Bool) {r : Reason} {ids : List ℕ} (i : ℕ)
      → evaluate_exit legs net margin stop combined stale opted grace ≡ close_legs r ids
      → In i ids
      → (lg : ExitLeg W) × In lg legs
        × (lg.id ≡ i)
        × (lg.status ≡ opened)
        × (is_triggered (not stale) lg ≡ true)
        × (lg.close_scope ≡ leg)
        × Acts stale opted grace
  close_legs_from legs net margin stop combined stale opted grace {r} {ids} i e m =
      let (d, acts) = evaluate_exit_close_legs legs net margin stop combined stale opted grace e in
      let os = filter open_leg legs in
      let (same, none_asks) = leg_decision_close_legs stale os d in
      let p = is_triggered (not stale) in
      let k : In i (map (λ (l : ExitLeg W). l.id) (filter p os)) = rw same at m in
      let (lg, j, e') = In-map_inv (λ (l : ExitLeg W). l.id) i (filter p os) k in
      let (j', t) = In-filter_inv p lg os j in
      let (j'', op) = In-filter_inv open_leg lg legs j' in
      let scoped = In-any (λ (l : ExitLeg W). is_strategy l.close_scope) lg (filter p os) j in
      (lg, j'', sym e', ground arith, t, ground (arith, scoped), acts)

  triggered-IsDue :
      (stale : Bool) (lg : ExitLeg W) → is_triggered (not stale) lg ≡ true → IsDue stale lg
  unfolding is_triggered
  triggered-IsDue stale lg h =
      elim (Bool-cases (not stale && reached_target lg.target_pnl lg.pnl)) [
        | inl e ↦ (
          ground (arith, h),
          inr (ground (arith, e), at_target lg.target_pnl lg.pnl (ground (arith, e))),
        )
        | inr e ↦ (ground (arith, h), inl (at_stop lg.stop_pnl lg.pnl (ground (arith, e, h))))
      ]

  IsDue-triggered :
      (stale : Bool) (lg : ExitLeg W) → IsDue stale lg → is_triggered (not stale) lg ≡ true
  unfolding is_triggered
  IsDue-triggered stale lg (auto, inl hit) =
      let r = stop_at lg.stop_pnl lg.pnl hit in ground (arith, auto, r)
  IsDue-triggered stale lg (auto, inr (live, hit)) =
      let r = target_at lg.target_pnl lg.pnl hit in ground (arith, auto, live, r)

  -- Where `close_legs` is decided, each leg that it names is one of the open legs that have auto-exit and a P&L at or
  -- below their stop or, on a fresh feed, at or above their target. Each such leg is named by it, and none
  -- of them asks to close the strategy; and the engine acts.
  pub close_legs_justified :
      (legs : List (ExitLeg W)) (net margin : W) (stop : Option (CombinedStop W))
      (combined stale opted grace : Bool) (r : Reason) (ids : List ℕ)
      → evaluate_exit legs net margin stop combined stale opted grace ≡ close_legs r ids
      → ((i : ℕ)
          → In i ids
          → (lg : ExitLeg W) × In lg legs × (lg.id ≡ i) × (lg.status ≡ opened) × IsDue stale lg)
        × ((lg : ExitLeg W)
            → In lg legs
            → lg.status ≡ opened
            → IsDue stale lg
            → In lg.id ids × (lg.close_scope ≡ leg))
        × Acts stale opted grace
  close_legs_justified legs net margin stop combined stale opted grace r ids e =
      let (d, acts) = evaluate_exit_close_legs legs net margin stop combined stale opted grace e in
      let os = filter open_leg legs in
      let (same, none_asks) = leg_decision_close_legs stale os d in
      let p = is_triggered (not stale) in
      (
        λ i m.
            let (lg, j, k, op, t, scope, a) =
              close_legs_from legs net margin stop combined stale opted grace i e m in
            (lg, j, k, op, triggered-IsDue stale lg t),
        λ lg m op due.
            let i = In-filter open_leg lg legs m (ground (arith, op)) in
            let t = In-filter p lg os i (IsDue-triggered stale lg due) in
            let scoped = In-any (λ (l : ExitLeg W). is_strategy l.close_scope) lg (filter p os) t in
            (
              rw same (In-map (λ (l : ExitLeg W). l.id) lg (filter p os) t),
              ground (arith, scoped, none_asks),
            ),
        acts,
      )
