-- ===== src/Tests/Groups.antt =====
-- Examples of exits and edits of live groups.
use Prim.Native.String.{String}
use mathlib.Core.Path.{subst}
use delta_paper_trader.Prelude.{
  map, ◌≡◌, refl, true, false, Option, none, some, List, [], ◌∷◌, find,
}
use delta_paper_trader.Prelude.Int.{ℤ}
use delta_paper_trader.Float.Fixed.{fixed, cents}
use delta_paper_trader.Models.{Position, live}
use delta_paper_trader.Sim.{mark_of}
use delta_paper_trader.Sim.Edits.{unset, set}
use delta_paper_trader.Sync.Live.{evaluate_live, basket_floor, target_of_basket}
use delta_paper_trader.Exit.{combined_floor}
use delta_paper_trader.Sync.Exits.{
  LiveState, Task, by_hand, begin_exit, register_exit, start_exit, find_group, manual_exit,
}
use delta_paper_trader.Sync.Exits.Marks.{stay, go, asked, resumed}
use delta_paper_trader.Sync.Exits.Marks.{stay, go, asked, resumed}
use delta_paper_trader.Money.{leg_pnl}
use delta_paper_trader.LiveApi.{
  Edited, accepted, rejected, BasketIn, edit_first, set_basket, with_basket, apply_edit,
  group_problems, problems_of, net_from, is_group,
}
use delta_paper_trader.LiveApi.Quiet.{open_pnls, accepted_basket_is_quiet, rejected_basket_restores}
use delta_paper_trader.LiveApi.Quiescent.{is_basket_exit}
use delta_paper_trader.Tests.Paper.{market, straddle}
use delta_paper_trader.Float.{sum, sum_from, nought}

abbrev tenth : String → ℤ
tenth symbol = cents 10

abbrev fresh_marks : String → Option ℤ
fresh_marks symbol = some (cents 100)

abbrev group : Position ℤ
group = record straddle { source = live; auto_exit = true; stop_loss_amount = some (cents 1000) }

abbrev before : LiveState ℤ
before = record { groups = group ∷ []; running = []; started = []; usage = none; notices = [] }

abbrev or_before : Option (LiveState ℤ) → LiveState ℤ
or_before none = before
or_before (some st) = st

-- An exit of the group has begun and waits; the user asks for one, which starts; then the first goes on.
abbrev marked : LiveState ℤ
marked = or_before (begin_exit tenth group by_hand before)

abbrev after : LiveState ℤ
after = (manual_exit market fresh_marks tenth 4 marked).1

abbrev later : LiveState ℤ
later = register_exit tenth group after

abbrev or_group : Option (Position ℤ) → Position ℤ
or_group none = group
or_group (some p) = p

abbrev marked_group : Position ℤ
marked_group = or_group (find_group 4 later.groups)

-- Both starts got through: two exits of the group run.
two_exits : map (λ (t : Task ℤ). t.pid) later.started ≡ 4 ∷ 4 ∷ []
unfolding begin_exit manual_exit start_exit register_exit
two_exits = refl

-- A stop at a loss of 500 lies beyond the loss of about 4; one at 1 is reached already.
abbrev wide : BasketIn ℤ
wide = record {
  sl_amount = set (some (cents 50000));
  sl_pct = unset;
  tp_amount = unset;
  tp_pct = unset;
}

abbrev narrow : BasketIn ℤ
narrow = record {
  sl_amount = set (some (cents 1));
  sl_pct = unset;
  tp_amount = unset;
  tp_pct = unset;
}

abbrev groups_of : Edited ℤ → List (Position ℤ)
groups_of (accepted groups) = groups
groups_of (rejected n groups) = groups

abbrev widened : List (Position ℤ)
widened = groups_of (set_basket market tenth 4 wide (group ∷ []))

-- The running sum of the group's P&L is its sum.
agree :
    (g : Position ℤ)
    → find (is_group market tenth 4) (group ∷ []) ≡ some g
    → sum (open_pnls market tenth g) ≡ sum_from nought (open_pnls market tenth g)
unfolding leg_pnl mark_of
agree g h =
    let e : group ≡ g = cc in
    subst
      (λ (q : Position ℤ).
        sum (open_pnls market tenth q) ≡ sum_from nought (open_pnls market tenth q))
      e refl

accepted_basket_is_quiet_example :
    (g : Position ℤ) × (find (is_group market tenth 4) widened ≡ some g)
    × (is_basket_exit (evaluate_live g (mark_of market) false false) ≡ false)
unfolding set_basket apply_edit group_problems problems_of net_from with_basket edit_first leg_pnl
    basket_floor combined_floor target_of_basket
accepted_basket_is_quiet_example =
    accepted_basket_is_quiet market tenth 4 wide (group ∷ []) widened false agree refl

abbrev narrowed : List (Position ℤ)
narrowed = groups_of (set_basket market tenth 4 narrow (group ∷ []))

rejected_basket_restores_example : narrowed ≡ group ∷ []
unfolding set_basket apply_edit group_problems problems_of net_from with_basket edit_first leg_pnl
    basket_floor combined_floor target_of_basket
rejected_basket_restores_example =
    rejected_basket_restores market tenth 4 409 narrow (group ∷ []) narrowed refl
