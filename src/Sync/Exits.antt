-- ===== src/Sync/Exits.antt =====
-- The exits of live groups, backend/app/live/sync.py: `_maybe_trigger`, `_start_exit`, the end of `_run_exit`,
-- `manual_exit` and `_close_legs`, for one user. The age of a mark, the tick of a symbol and the fills that
-- Delta reports are parameters; a start waits between its check and its task. The journal's snapshot, Log rows
-- and the texts of alerts are left out.
pub mod Firing
pub mod Marks
pub mod Lasting
use Prim.Native.String.{String}
use delta_paper_trader.Prelude.{
  length, ℕ, ◌==◌, Bool, true, false, not, ◌&&◌, ◌||◌, Option, none, some, List, [], ◌∷◌, ◌++◌, map,
  filter, any, find, is_empty, is_some, or_default, same_text, if◌then◌else◌,
}
use delta_paper_trader.Float.{Float, ◌<?◌, nought}
use delta_paper_trader.Types.{Side, buy, sell, closed}
use delta_paper_trader.Models.{Leg, Position, CloseReason, given, is_opened, open_legs}
use delta_paper_trader.Money.{leg_pnl}
use delta_paper_trader.Risk.{Level, warning, critical, emergency, margin_level, close_side}
use delta_paper_trader.Exit.{
  ExitDecision, none_due, suspended, close_strategy, close_legs, Reason, Cause, no_cause,
  combined_sl, leg_tp_sl, leg_sl, leg_target, basket_target,
}
use delta_paper_trader.Executor.{ExitTarget, ExitResult}
use delta_paper_trader.Journal.{Fill, FillSummary, fill_run, fill_summary}
use delta_paper_trader.Sim.{MarketView, mark_of}
use delta_paper_trader.Sync.{Hit, member, in_group, in_leg}
use delta_paper_trader.Sync.Live.{evaluate_live}

-- Why an exit starts: a decision, a bracket that fired on Delta, or the user.
pub data ExitReason : Type 0 where
  decided : Reason → ExitReason
  bracket_sl bracket_target by_hand : ExitReason

abbrev pub decided_label : Cause → Bool → CloseReason
decided_label no_cause tagged = given "SL: "
decided_label combined_sl true = given "SL: combined SL (stale hard-stop)"
decided_label combined_sl false = given "SL: combined SL"
decided_label leg_tp_sl true = given "SL: leg TP/SL (stale hard-stop)"
decided_label leg_tp_sl false = given "SL: leg TP/SL"
decided_label leg_sl true = given "SL: leg SL (stale hard-stop)"
decided_label leg_sl false = given "SL: leg SL"
decided_label leg_target true = given "Target: leg target (stale hard-stop)"
decided_label leg_target false = given "Target: leg target"
decided_label basket_target true = given "Target: basket target (stale hard-stop)"
decided_label basket_target false = given "Target: basket target"

-- The label of an exit; each is shorter than the 40 characters of its column.
abbrev pub exit_label : ExitReason → CloseReason
exit_label (decided why) = decided_label why.cause why.tagged
exit_label bracket_sl = given "SL: Delta bracket SL"
exit_label bracket_target = given "Target: Delta bracket target"
exit_label by_hand = given "manual exit"

-- The alerts that an exit raises, each under the key of its group.
pub data Notice : Type 0 where
  exiting_all : ℕ → Bool → Notice
  all_closed : ℕ → ℕ → Notice
  blocked : ℕ → Notice
  not_flat : ℕ → Notice

-- What `_run_exit` is started with, and the number of the task.
pub record Task (W : Type 0) : Type 0 where
  pub serial : ℕ
  pub pid : ℕ
  pub targets : List (ExitTarget W)
  pub at_market : Bool

-- The user's groups, the keys whose task in `_exits` is not done, the tasks that were started with the newest
-- first, the margin usage and the alerts raised.
pub record LiveState (W : Type 0) : Type 0 where
  pub groups : List (Position W)
  pub running : List ℕ
  pub started : List (Task W)
  pub usage : Option W
  pub notices : List Notice

abbrev pub is_emergency : Option Level → Bool
is_emergency none = false
is_emergency (some level) = elim level [ emergency ↦ true | _ ↦ false ]

abbrev pub is_suspended : ExitDecision → Bool
is_suspended none_due = false
is_suspended suspended = true
is_suspended (close_strategy why) = false
is_suspended (close_legs why ids) = false

module _ {W : Type 0} where
  abbrev pub change_group : ℕ → (Position W → Position W) → LiveState W → LiveState W
  change_group pid g st = record st { groups = in_group pid g st.groups }

  abbrev pub find_group : ℕ → List (Position W) → Option (Position W)
  find_group pid groups = find (λ (p : Position W). p.id == pid) groups

  abbrev pub target_of : (String → W) → Leg W → ExitTarget W
  target_of tick_of lg = record {
    product_id = lg.product_id;
    symbol = lg.symbol;
    tick = tick_of lg.symbol;
    stop_order_id = lg.stop_order_id;
    tp_order_id = lg.tp_order_id;
  }

module _ {W : Type 0} ⦃f : Float W⦄ (tick_of : String → W) where
  -- `_start_exit` up to the commit, its first `await`: nothing where an exit of the group runs.
  unfoldable pub begin_exit : Position W → ExitReason → LiveState W → Option (LiveState W)
  begin_exit p why st =
      if member p.id st.running
      then none
      else some (
          change_group p.id
            (λ (q : Position W). record q { exiting = true; close_reason = some (exit_label why) })
            st)

  -- The rest, after the waits for the commit and the alert: other calls may have run since the check, which
  -- is not made again.
  unfoldable pub register_exit : Position W → LiveState W → LiveState W
  register_exit p st =
      let urgent = is_emergency (margin_level st.usage) in
      record st {
        running = p.id ∷ filter (λ k. not (k == p.id)) st.running;
        started =
            record {
              serial = length st.started;
              pid = p.id;
              targets = map (target_of tick_of) (open_legs p.legs);
              at_market = urgent;
            }
            ∷ st.started;
        notices = exiting_all p.id urgent ∷ st.notices;
      }

  abbrev pub then_register : Position W → LiveState W → Option (LiveState W) → Bool × LiveState W
  then_register p st none = (false, st)
  then_register p st (some marked) = (true, register_exit p marked)

  -- `_start_exit` where nothing else runs while it waits.
  unfoldable pub start_exit : Position W → ExitReason → LiveState W → Bool × LiveState W
  start_exit p why st = then_register p st (begin_exit p why st)

module _ {W : Type 0} ⦃f : Float W⦄ (mv : MarketView W) (mark_age : String → Option W)
    (tick_of : String → W) where
  -- `a is None or a > LEG_STALE_S`, and `a is not None and a > STALE_GRACE_S`
  abbrev pub is_frozen : Option W → Bool
  is_frozen none = true
  is_frozen (some a) = f.lit 10 0 <? a

  abbrev pub is_old : Option W → Bool
  is_old none = false
  is_old (some a) = f.lit 30 0 <? a

  abbrev pub on_decision : Position W → ExitDecision → LiveState W → LiveState W
  on_decision p none_due st = st
  on_decision p suspended st = st
  on_decision p (close_strategy why) st = (start_exit tick_of p (decided why) st).1
  on_decision p (close_legs why ids) st = (start_exit tick_of p (decided why) st).1

  unfoldable pub maybe_trigger : Position W → LiveState W → LiveState W
  maybe_trigger p st =
      let ages = map (λ (lg : Leg W). mark_age lg.symbol) (open_legs p.legs) in
      let grace = is_old mv.age || any is_old ages in
      let d = evaluate_live p (mark_of mv) (not mv.fresh || any is_frozen ages) grace in
      if not p.auto_exit || p.exiting
      then st
      else on_decision p d (
          change_group p.id (λ (q : Position W). record q { auto_exit_suspended = is_suspended d })
            st)

  unfoldable pub trigger_all : List (Position W) → LiveState W → LiveState W
  trigger_all [] st = st
  trigger_all (p ∷ ps) st = trigger_all ps (maybe_trigger p st)

  abbrev pub exit_found : Option (Position W) → LiveState W → Bool × LiveState W
  exit_found none st = (false, st)
  exit_found (some p) st =
      if is_opened p.status then start_exit tick_of p by_hand st else (false, st)

  -- `manual_exit`, for a user with a key
  unfoldable pub manual_exit : ℕ → LiveState W → Bool × LiveState W
  manual_exit pid st = exit_found (find_group pid st.groups) st

-- `fills` is what Delta reports, newest first, and nothing where that fails.
module _ {W : Type 0} ⦃f : Float W⦄ (mv : MarketView W) (now : ℕ) (fills : List (Fill W)) where
  -- `bool(order_id and order_id in oids)`
  abbrev pub is_filled_by : Option ℕ → List (Fill W) → Bool
  is_filled_by none run = false
  is_filled_by (some oid) run = not (oid == 0) && any (λ (x : Fill W). x.order_id == oid) run

  abbrev pub run_of : Leg W → List (Fill W)
  run_of lg = fill_run fills lg.product_id (close_side lg.side)

  -- Which side of our bracket closed the leg.
  unfoldable pub fired_by : Leg W → Option ExitReason
  fired_by lg =
      if is_filled_by lg.stop_order_id (run_of lg)
      then some bracket_sl
      else if is_filled_by lg.tp_order_id (run_of lg)
      then some bracket_target
      else none

  abbrev pub reason_of : Option ExitReason → Bool → CloseReason
  reason_of none exiting = if exiting then given "exit all" else given "closed on Delta"
  reason_of (some bracket_sl) exiting = given "Delta bracket SL"
  reason_of (some bracket_target) exiting = given "Delta bracket target"
  reason_of (some by_hand) exiting = given "manual"
  reason_of (some (decided why)) exiting = exit_label (decided why)

  abbrev pub price_of_exit : Option (FillSummary W) → W → W
  price_of_exit none mark = mark
  price_of_exit (some got) mark = got.price

  abbrev pub time_of_exit : Option (FillSummary W) → ℕ
  time_of_exit none = now
  time_of_exit (some got) = or_default got.last_at now

  abbrev pub fees_of_exit : Option (FillSummary W) → W
  fees_of_exit none = nought
  fees_of_exit (some got) = got.fees

  -- A leg that Delta reports flat, with its real fill.
  unfoldable pub gone_leg : Bool → Leg W → Leg W
  gone_leg exiting lg =
      let got = fill_summary (run_of lg) in
      let px = price_of_exit got (mark_of mv lg) in
      record lg {
        mark_at_exit = some (mark_of mv lg);
        status = closed;
        exit_price = some px;
        exit_at = some (time_of_exit got);
        exit_reason = some (reason_of (fired_by lg) exiting);
        exit_gross = some (leg_pnl lg.side lg.qty lg.contract_value lg.entry px);
        exit_fees = some (fees_of_exit got);
        stop_order_id = none;
        tp_order_id = none;
      }

  abbrev pub is_gone : List Hit → Position W → Leg W → Bool
  is_gone gone p lg = any (λ (h : Hit). (h.group_id == p.id) && (h.leg_id == lg.id)) gone

  -- The loop over `gone`.
  unfoldable pub record_gone : List Hit → List (Position W) → List (Position W)
  record_gone gone groups =
      map
        (λ (p : Position W). record p {
          legs =
              map (λ (lg : Leg W). if is_gone gone p lg then gone_leg p.exiting lg else lg) p.legs;
        })
        groups

  -- `stop_fired.get(pos.id)`: the last leg in `gone`, of an armed group, that a bracket closed.
  abbrev pub last_fired : List (Option ExitReason) → Option ExitReason
  last_fired [] = none
  last_fired (o ∷ os) = elim (last_fired os) [ some why ↦ some why | none ↦ o ]

  abbrev pub fired_leg : Option (Leg W) → Option ExitReason
  fired_leg none = none
  fired_leg (some lg) = fired_by lg

  unfoldable pub stop_fired : List Hit → Position W → Option ExitReason
  stop_fired gone p =
      if p.auto_exit
      then last_fired (
          map
            (λ (h : Hit).
              if h.group_id == p.id
              then fired_leg (find (λ (lg : Leg W). lg.id == h.leg_id) p.legs)
              else none)
            gone)
      else none

  abbrev pub shut_group : Position W → Position W
  shut_group p = record p {
    status = closed;
    closed_at = some now;
    close_reason = some (
        or_default p.close_reason
          (if p.exiting then given "exit all" else given "closed on Delta"));
  }

-- The keys of the groups, in the order of the dictionary over `gone`.
abbrev pub group_keys : List Hit → List ℕ → List ℕ
group_keys [] seen = []
group_keys (h ∷ gone) seen =
    let rest = group_keys gone seen in
    let more = group_keys gone (h.group_id ∷ seen) in
    if member h.group_id seen then rest else h.group_id ∷ more

module _ {W : Type 0} ⦃f : Float W⦄ (mv : MarketView W) (tick_of : String → W) (now : ℕ)
    (fills : List (Fill W)) where
  abbrev pub on_fired : Option ExitReason → Position W → LiveState W → LiveState W
  on_fired none p st = st
  on_fired (some why) p st = (start_exit tick_of p why st).1

  abbrev pub fired_in : List Hit → Option (Position W) → Option ExitReason
  fired_in gone none = none
  fired_in gone (some p) = stop_fired mv now fills gone p

  -- A group that lost its last open leg is closed; one whose bracket fired is exited.
  abbrev pub settle_group :
      List Hit → List (Position W) → ℕ → Option (Position W) → LiveState W → LiveState W
  settle_group gone before pid none st = st
  settle_group gone before pid (some p) st =
      if is_empty (open_legs p.legs)
      then change_group pid (shut_group mv now fills) st
      else on_fired (fired_in gone (find_group pid before)) p st

  unfoldable pub settle_groups : List Hit → List (Position W) → List ℕ → LiveState W → LiveState W
  settle_groups gone before [] st = st
  settle_groups gone before (pid ∷ pids) st =
      settle_groups gone before pids (settle_group gone before pid (find_group pid st.groups) st)

  -- `_close_legs`
  unfoldable pub close_gone : List Hit → LiveState W → LiveState W
  close_gone gone st =
      settle_groups gone st.groups (group_keys gone [])
        (record st { groups = record_gone mv now fills gone st.groups })

  abbrev pub hit_for : Position W → Leg W → Hit
  hit_for p lg = record {
    pid = lg.product_id;
    group_id = p.id;
    leg_id = lg.id;
    side = lg.side;
    exiting = p.exiting;
  }

  -- The open legs of the group that the exit was for.
  abbrev pub exited_legs : Task W → Option (Position W) → List Hit
  exited_legs task none = []
  exited_legs task (some p) =
      if is_opened p.status
      then map (hit_for p) (
          filter
            (λ (lg : Leg W). any (λ (t : ExitTarget W). same_text t.symbol lg.symbol) task.targets)
            (open_legs p.legs))
      else []

  abbrev pub report_exit : Task W → ExitResult → LiveState W → LiveState W
  report_exit task res st =
      if res.flat
      then (let st' = close_gone (exited_legs task (find_group task.pid st.groups)) st in
          record st' { notices = all_closed task.pid res.orders ∷ st'.notices })
      else record st {
        notices =
            (if is_some res.refused then blocked task.pid else not_flat task.pid) ∷ st.notices;
      }

  -- The task is the one that `_exits` holds for its group: the last that was started.
  abbrev pub is_held : Task W → Option (Task W) → Bool
  is_held task none = false
  is_held task (some t) = t.serial == task.serial

  -- The end of `_run_exit`; the exit is over once it has reported.
  unfoldable pub finish_exit : Task W → ExitResult → LiveState W → LiveState W
  finish_exit task res st =
      let st' = report_exit task res st in
      record st' {
        running =
            if is_held task (find (λ (t : Task W). t.pid == task.pid) st'.started)
            then filter (λ k. not (k == task.pid)) st'.running
            else st'.running;
      }
