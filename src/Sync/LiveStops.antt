-- ===== src/Sync/LiveStops.antt =====
-- A live SL that the mark crosses closes the whole group.
use delta_paper_trader.Prelude.{
  ℕ, ◌≡◌, refl, ap, sym, ◌∙◌, ◌⊎◌, inl, inr, Bool, true, false, some, map, In, In-map, In-map_inv,
}
use delta_paper_trader.Float.{Float, ◌≼◌, nought}
use delta_paper_trader.Float.Laws.{IsOrdered, IsRounded}
use delta_paper_trader.Types.{opened, leg, strategy}
use delta_paper_trader.Models.{Leg, Position}
use delta_paper_trader.Money.{leg_pnl}
use delta_paper_trader.Risk.{sl_crossed}
use delta_paper_trader.Risk.Triggers.{crossed_sl_reaches_pnl}
use delta_paper_trader.Exit.{
  ExitLeg, ExitDecision, none_due, suspended, close_strategy, close_legs, Reason, evaluate_exit,
}
use delta_paper_trader.Exit.Spec.{Closes, Acts, stop_is_enforced, close_legs_from}
use delta_paper_trader.Sync.Live.{combined_stop, live_leg, net_of, settle, evaluate_live}

module _ {W : Type 0} ⦃f : Float W⦄ (o : IsOrdered W) (r : IsRounded W) where
  -- The engine's decision on the legs of a live group.
  abbrev decision : Position W → (Leg W → W) → Bool → Bool → ExitDecision
  decision pos mark_of stale grace =
      evaluate_exit (map (live_leg mark_of) pos.legs) (net_of (map (live_leg mark_of) pos.legs))
        pos.margin (some (combined_stop pos)) true stale true grace

  settle-Closes :
      (pos : Position W) (mark_of : Leg W → W) (stale grace : Bool) (i : ℕ) (d : ExitDecision)
      (at_target hit_sl : Bool)
      → decision pos mark_of stale grace ≡ d
      → Closes i d
      → (why : Reason) × (settle at_target hit_sl d ≡ close_strategy why)
  settle-Closes pos mark_of stale grace i none_due at_target hit_sl e k = absurd k
  settle-Closes pos mark_of stale grace i suspended at_target hit_sl e k = absurd k
  settle-Closes pos mark_of stale grace i (close_strategy why) at_target hit_sl e k = (_, refl)
  settle-Closes pos mark_of stale grace i (close_legs why ids) at_target hit_sl e k =
      let legs = map (live_leg mark_of) pos.legs in
      let (lg, m, same, opn, trig, scope, acts) =
        close_legs_from legs (net_of legs) pos.margin (some (combined_stop pos)) true stale true
          grace i e k in
      let (l, m', from) = In-map_inv (live_leg mark_of) lg pos.legs m in
      let bad : strategy ≡ leg = sym (ap (λ (x : ExitLeg W). x.close_scope) from) ∙ scope in cc

  -- Where the mark has crossed the SL of an open leg of the group, with a quantity and a contract value that are
  -- not negative, the decision is to close the whole group, on a fresh feed as well as on a stale one past
  -- its grace.
  pub crossed_sl_closes_group :
      (pos : Position W) (lg : Leg W) (mark_of : Leg W → W) (sl : W) (stale grace : Bool)
      → In lg pos.legs
      → lg.status ≡ opened
      → lg.sl_price ≡ some sl
      → nought ≼ lg.qty
      → nought ≼ lg.contract_value
      → sl_crossed lg.side (mark_of lg) (some sl) ≡ true
      → (stale ≡ false) ⊎ (grace ≡ true)
      → (why : Reason) × (evaluate_live pos mark_of stale grace ≡ close_strategy why)
  unfolding evaluate_live
  crossed_sl_closes_group pos lg mark_of sl stale grace m opn at hq hc crossed fresh =
      let legs = map (live_leg mark_of) pos.legs in
      let acts : Acts stale true grace = elim fresh [ inl e ↦ inl e | inr e ↦ inr (refl, e) ] in
      settle-Closes pos mark_of stale grace lg.id _ _ _ refl (
        stop_is_enforced legs (live_leg mark_of lg)
          (leg_pnl lg.side lg.qty lg.contract_value lg.entry sl) (net_of legs) pos.margin
          (some (combined_stop pos)) true stale true grace (In-map (live_leg mark_of) lg pos.legs m)
          opn refl (rw at refl)
          (crossed_sl_reaches_pnl o r lg.side lg.qty lg.contract_value lg.entry (mark_of lg) sl hq
            hc crossed)
          acts)
