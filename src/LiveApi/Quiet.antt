-- ===== src/LiveApi/Quiet.antt =====
-- An accepted edit of a live group fires no basket stop or target at once; a rejected one leaves no trace.
use Prim.Native.String.{String}
use mathlib.Core.Path.{subst}
use delta_paper_trader.Prelude.{
  ℕ, ◌≡◌, refl, sym, ap, ◌∙◌, Bool, true, false, Option, none, some, List, [], ◌∷◌, ◌++◌, map,
  filter, any, find, is_empty, if_true, if_false, Bool-cases, Option-cases, inl, inr, arith,
}
use delta_paper_trader.Float.{sum, Float, ◌⊕◌, nought, sum_from}
use delta_paper_trader.Models.{Leg, Position, is_opened, open_legs}
use delta_paper_trader.Money.{leg_pnl}
use delta_paper_trader.Exit.{
  ExitLeg, evaluate_exit, leg_decision, open_leg, is_strategy, is_triggered, reached_stop,
}
use delta_paper_trader.Sim.{Quote, MarketView, mark_of}
use delta_paper_trader.Sim.Closing.{find_holds}
use delta_paper_trader.Sync.Live.{
  basket_floor, target_of_basket, combined_stop, live_leg, net_of, meets, evaluate_live,
}
use delta_paper_trader.LiveApi.{
  accepted, rejected, BasketIn, edit_first, group_problems, problems_of, leg_problems,
  floor_problem, target_problem, net_from, add_pnl, live_mark, set_basket, basket_of, apply_edit,
  with_basket, basket_undo, is_group,
}
use delta_paper_trader.LiveApi.Quiescent.{
  is_basket_exit, settle_quiet, is_empty-append, edit_first-undo, find-edit_first,
}

module _ {W : Type 0} ⦃f : Float W⦄ (mv : MarketView W) (tick_of : String → W) where
  quoted_mark :
      (o : Option (Quote W)) (lg : Leg W)
      → mv.quote lg.symbol ≡ o
      → is_empty (leg_problems mv tick_of lg (live_mark mv tick_of o)) ≡ true
      → live_mark mv tick_of o ≡ some (mark_of mv lg)
  unfolding mark_of
  quoted_mark none lg e h = cc
  quoted_mark (some q) lg e h = elim (Option-cases q.mark) [
    | inl n ↦ let k : false ≡ true = rw n at h in cc
    | inr s ↦ let (m, k) = s in rw (e, k) refl
  ]

  -- Without a problem of a leg, `net` is the net P&L that the exit decision sees.
  net_from-sum :
      (acc : W) (legs : List (Leg W))
      → is_empty (problems_of mv tick_of (open_legs legs)) ≡ true
      → net_from mv tick_of acc (open_legs legs)
        ≡ sum_from acc
            (map (λ (x : ExitLeg W). x.pnl) (filter open_leg (map (live_leg (mark_of mv)) legs)))
  unfolding net_from problems_of
  net_from-sum acc [] h = refl
  net_from-sum acc (lg ∷ legs) h = elim (Bool-cases (is_opened lg.status)) [
    | inr e ↦ rw e (net_from-sum acc legs (rw e at h))
    | inl e ↦
        let h' : is_empty (
              leg_problems mv tick_of lg (live_mark mv tick_of (mv.quote lg.symbol))
              ++ problems_of mv tick_of (open_legs legs))
            ≡ true =
          rw e at h in
        let (here, rest) = is_empty-append _ (problems_of mv tick_of (open_legs legs)) h' in
        rw e (
          ap (λ o. net_from mv tick_of (add_pnl mv tick_of acc lg o) (open_legs legs))
            (quoted_mark (mv.quote lg.symbol) lg refl here)
          ∙ net_from-sum (acc ⊕ leg_pnl lg.side lg.qty lg.contract_value lg.entry (mark_of mv lg))
              legs rest)
  ]

  floor_free :
      (o : Option W) (net : W)
      → is_empty (floor_problem mv tick_of o net) ≡ true
      → reached_stop o net ≡ false
  floor_free none net h = refl
  floor_free (some floor) net h = ground arith

  target_free :
      (o : Option W) (net : W)
      → is_empty (target_problem mv tick_of o net) ≡ true
      → meets o net ≡ false
  target_free none net h = refl
  target_free (some goal) net h = ground arith

  leg_decision_quiet : (legs : List (ExitLeg W)) → is_basket_exit (leg_decision false legs) ≡ false
  unfolding leg_decision
  leg_decision_quiet legs = elim (Bool-cases (is_empty (filter (is_triggered true) legs))) [
    | inl e ↦ rw e refl
    | inr e ↦
        elim (Bool-cases
          (any (λ (x : ExitLeg W). is_strategy x.close_scope) (filter (is_triggered true) legs))) [
            | inl k ↦ rw (e, k) refl
            | inr k ↦ rw (e, k) refl
          ]
  ]

  evaluate_exit_quiet :
      (g : Position W) (legs : List (ExitLeg W)) (net : W) (grace : Bool)
      → reached_stop (basket_floor g) net ≡ false
      → is_basket_exit
          (evaluate_exit legs net g.margin (some (combined_stop g)) true false true grace)
        ≡ false
  unfolding evaluate_exit basket_floor
  evaluate_exit_quiet g legs net grace h = elim (Bool-cases (is_empty (filter open_leg legs))) [
    | inl e ↦ rw e refl
    | inr e ↦ rw (e, h) (leg_decision_quiet (filter open_leg legs))
  ]

  -- The P&L of the open legs, as the exit decision sees it.
  abbrev pub open_pnls : Position W → List W
  open_pnls g =
      map (λ (x : ExitLeg W). x.pnl) (filter open_leg (map (live_leg (mark_of mv)) g.legs))

  no_problems_quiet :
      (g : Position W) (grace : Bool)
      → sum (open_pnls g) ≡ sum_from nought (open_pnls g)
      → is_empty (group_problems mv tick_of g) ≡ true
      → is_basket_exit (evaluate_live g (mark_of mv) false grace) ≡ false
  unfolding group_problems evaluate_live
  no_problems_quiet g grace exact h =
      let net = net_from mv tick_of nought (open_legs g.legs) in
      let seen = net_of (map (live_leg (mark_of mv)) g.legs) in
      let floors = floor_problem mv tick_of (basket_floor g) net in
      let goals = target_problem mv tick_of (target_of_basket g) net in
      let problems = problems_of mv tick_of (open_legs g.legs) in
      let (rest, goal) = is_empty-append (problems ++ floors) goals h in
      let (legs, floor) = is_empty-append problems floors rest in
      let same : net ≡ seen = net_from-sum nought g.legs legs ∙ sym exact in
      let below : reached_stop (basket_floor g) seen ≡ false =
        subst (λ x. reached_stop (basket_floor g) x ≡ false) same
          (floor_free (basket_floor g) net floor) in
      let short : meets (target_of_basket g) seen ≡ false =
        subst (λ x. meets (target_of_basket g) x ≡ false) same
          (target_free (target_of_basket g) net goal) in
      rw short (
        settle_quiet _ _
          (evaluate_exit_quiet g (map (live_leg (mark_of mv)) g.legs) seen grace below))

  apply_edit_inv :
      (test : Position W → Bool) (undo : Position W → Position W) (g : Position W)
      (groups groups' : List (Position W))
      → apply_edit mv tick_of test undo g groups ≡ accepted groups'
      → (is_empty (group_problems mv tick_of g) ≡ true) × (groups ≡ groups')
  unfolding apply_edit
  apply_edit_inv test undo g groups groups' h =
      elim (Bool-cases (is_empty (group_problems mv tick_of g))) [
        | inl e ↦ let k : accepted groups ≡ accepted groups' = rw e at h in (e, cc)
        | inr e ↦
            let k : rejected 409 (edit_first test undo groups) ≡ accepted groups' = rw e at h in cc
      ]

  apply_edit_undo :
      (test : Position W → Bool) (undo : Position W → Position W) (g : Position W)
      (groups groups' : List (Position W)) (n : ℕ)
      → apply_edit mv tick_of test undo g groups ≡ rejected n groups'
      → edit_first test undo groups ≡ groups'
  unfolding apply_edit
  apply_edit_undo test undo g groups groups' n h =
      elim (Bool-cases (is_empty (group_problems mv tick_of g))) [
        | inl e ↦ let k : accepted groups ≡ rejected n groups' = rw e at h in cc
        | inr e ↦
            let k : rejected 409 (edit_first test undo groups) ≡ rejected n groups' = rw e at h in
            cc
      ]

  basket_of-accepted :
      (pos_id : ℕ) (body : BasketIn W) (o : Option (Position W))
      (groups groups' : List (Position W)) (grace : Bool)
      → find (is_group mv tick_of pos_id) groups ≡ o
      → ((g : Position W) → o ≡ some g → sum (open_pnls g) ≡ sum_from nought (open_pnls g))
      → basket_of mv tick_of pos_id body o groups ≡ accepted groups'
      → (g : Position W) × (find (is_group mv tick_of pos_id) groups' ≡ some g)
        × (is_basket_exit (evaluate_live g (mark_of mv) false grace) ≡ false)
  unfolding with_basket
  basket_of-accepted pos_id body none groups groups' grace hf exact h = cc
  basket_of-accepted pos_id body (some g) groups groups' grace hf exact h =
      elim (Bool-cases g.exiting) [
        | inl e ↦ let k : rejected 409 groups ≡ accepted groups' = sym (if_true _ _ e) ∙ h in cc
        | inr e ↦
            let (free, same) =
              apply_edit_inv (is_group mv tick_of pos_id) (basket_undo mv tick_of g)
                (with_basket mv tick_of body g) _ groups' (sym (if_false _ _ e) ∙ h) in
            let found = find_holds (is_group mv tick_of pos_id) groups g hf in
            (
              with_basket mv tick_of body g,
              subst
                  (λ gs.
                    find (is_group mv tick_of pos_id) gs ≡ some (with_basket mv tick_of body g))
                  same
                  (find-edit_first (is_group mv tick_of pos_id) (with_basket mv tick_of body) groups
                    g hf found),
              no_problems_quiet (with_basket mv tick_of body g) grace (exact g refl) free,
            )
      ]

  -- Where an edit of a basket's stop and target is accepted, and for the P&L of the group's open legs Python's `sum`, which
  -- compensates rounding, agrees with the running sum of the check, the group is found with values for which the exit decision,
  -- at the marks that the edit was checked against and with every mark fresh, closes nothing for the
  -- basket's stop or target.
  pub accepted_basket_is_quiet :
      (pos_id : ℕ) (body : BasketIn W) (groups groups' : List (Position W)) (grace : Bool)
      → ((g : Position W)
          → find (is_group mv tick_of pos_id) groups ≡ some g
          → sum (open_pnls g) ≡ sum_from nought (open_pnls g))
      → set_basket mv tick_of pos_id body groups ≡ accepted groups'
      → (g : Position W) × (find (is_group mv tick_of pos_id) groups' ≡ some g)
        × (is_basket_exit (evaluate_live g (mark_of mv) false grace) ≡ false)
  unfolding set_basket
  accepted_basket_is_quiet pos_id body groups groups' grace exact h =
      basket_of-accepted pos_id body (find (is_group mv tick_of pos_id) groups) groups groups' grace
        refl exact h

  basket_of-rejected :
      (pos_id n : ℕ) (body : BasketIn W) (o : Option (Position W))
      (groups groups' : List (Position W))
      → find (is_group mv tick_of pos_id) groups ≡ o
      → basket_of mv tick_of pos_id body o groups ≡ rejected n groups'
      → groups' ≡ groups
  unfolding with_basket basket_undo
  basket_of-rejected pos_id n body none groups groups' hf h = cc
  basket_of-rejected pos_id n body (some g) groups groups' hf h = elim (Bool-cases g.exiting) [
    | inl e ↦ let k : rejected 409 groups ≡ rejected n groups' = sym (if_true _ _ e) ∙ h in cc
    | inr e ↦
        let back =
          apply_edit_undo (is_group mv tick_of pos_id) (basket_undo mv tick_of g)
            (with_basket mv tick_of body g) _ groups' n (sym (if_false _ _ e) ∙ h) in
        sym back
        ∙ edit_first-undo (is_group mv tick_of pos_id) (with_basket mv tick_of body)
            (basket_undo mv tick_of g) groups g hf
            (find_holds (is_group mv tick_of pos_id) groups g hf) refl
  ]

  -- A rejected edit of a basket leaves every group as it was: what was assigned is put back.
  pub rejected_basket_restores :
      (pos_id n : ℕ) (body : BasketIn W) (groups groups' : List (Position W))
      → set_basket mv tick_of pos_id body groups ≡ rejected n groups'
      → groups' ≡ groups
  unfolding set_basket
  rejected_basket_restores pos_id n body groups groups' h =
      basket_of-rejected pos_id n body (find (is_group mv tick_of pos_id) groups) groups groups'
        refl h
