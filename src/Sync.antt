-- ===== src/Sync.antt =====
-- The live sync, backend/app/live/sync.py: `reconcile`, which mirrors Delta's open positions into the live
-- groups. The contract of a symbol, the spot and the days to an expiry come from the feed and the
-- calendar and are parameters. `Exits` has the exits that the sync starts.
pub mod Gone
pub mod Live
pub mod LiveStops
pub mod Exits
use Prim.Native.String.{String}
use delta_paper_trader.Prelude.{
  concat, ℕ, suc, ◌==◌, leb, Bool, true, false, not, ◌&&◌, ◌||◌, Option, none, some, List, [], ◌∷◌,
  ◌++◌, map, filter, any, find, length, if◌then◌else◌, is_some, or_default, same_text,
}
use delta_paper_trader.Prelude.Int.{ℤ, magnitude, is_zero, is_negative}
use delta_paper_trader.Float.{Float, nought, opt_or}
use delta_paper_trader.Types.{Side, buy, sell, OptType, opened, strategy}
use delta_paper_trader.Models.{Leg, Position, live, est, is_opened}

-- `Contract` of backend/app/services/chain.py, as far as it is read here. An expiry is its ISO text.
pub record Contract (W : Type 0) : Type 0 where
  pub product_id : Option ℕ
  pub option_type : OptType
  pub strike : W
  pub expiry : Option String
  pub contract_value : Option W
  pub mark_price : Option W

-- A position that Delta reports. `entry_price` and `margin` are texts there: `none` where it is missing
-- or empty. `parts` is the symbol, split at its dashes.
pub record DeltaPosition (W : Type 0) : Type 0 where
  pub size : ℤ
  pub symbol : String
  pub parts : List String
  pub product_id : ℕ
  pub entry_price : Option W
  pub margin : Option W

-- An entry of the dictionary `open_legs`: the product, and its group and leg by their keys. The loop changes
-- neither a side nor `exiting`, so both are kept.
pub record Hit : Type 0 where
  pub pid : ℕ
  pub group_id : ℕ
  pub leg_id : ℕ
  pub side : Side
  pub exiting : Bool

-- An entry of the dictionary `by_key`.
pub record GroupKey : Type 0 where
  pub underlying : String
  pub expiry : String
  pub group_id : ℕ

-- The groups, what is returned, and the variables of the loop. `fresh` is the key of the next new row.
pub record Reconciled (W : Type 0) : Type 0 where
  pub groups : List (Position W)
  pub new_groups : List ℕ
  pub gone : List Hit
  pub untracked : List String
  pub new_legs : List ℕ
  pub by_key : List GroupKey
  pub seen : List ℕ
  pub flipped : List ℕ
  pub fresh : ℕ

abbrev pub member : ℕ → List ℕ → Bool
member n ns = any (λ m. m == n) ns

-- `open_legs.get(pid)`
abbrev pub hit_of : ℕ → List Hit → Option Hit
hit_of pid hits = find (λ (h : Hit). h.pid == pid) hits

-- Writing to a dictionary keeps the place of a key that is there.
abbrev pub put : Hit → List Hit → List Hit
put h [] = h ∷ []
put h (x ∷ hits) = let rest = put h hits in if x.pid == h.pid then h ∷ hits else x ∷ rest

abbrev pub side_of : ℤ → Side
side_of size = if is_negative size then sell else buy

abbrev pub is_side : Side → Side → Bool
is_side buy buy = true
is_side sell sell = true
is_side buy sell = false
is_side sell buy = false

-- `symbol.split("-")[1] if symbol.count("-") >= 3 else ""`
abbrev pub underlying_of : List String → String
underlying_of (a ∷ b ∷ c ∷ d ∷ parts) = b
underlying_of (a ∷ b ∷ c ∷ []) = ""
underlying_of (a ∷ b ∷ []) = ""
underlying_of (a ∷ []) = ""
underlying_of [] = ""

abbrev pub get_key : String → String → List GroupKey → Option GroupKey
get_key underlying expiry keys =
    find (λ (k : GroupKey). same_text k.underlying underlying && same_text k.expiry expiry) keys

module _ {W : Type 0} where
  -- `{lg.product_id: (p, lg) for p in open_groups for lg in p.legs if lg.status == "open"}`
  abbrev pub hits_of_legs : Position W → List (Leg W) → List Hit → List Hit
  hits_of_legs p [] hits = hits
  hits_of_legs p (lg ∷ legs) hits = hits_of_legs p legs (
      if is_opened lg.status
      then put
          (record {
            pid = lg.product_id;
            group_id = p.id;
            leg_id = lg.id;
            side = lg.side;
            exiting = p.exiting;
          })
          hits
      else hits)

  abbrev pub hits_from : List (Position W) → List Hit → List Hit
  hits_from [] hits = hits
  hits_from (p ∷ groups) hits =
      hits_from groups (if is_opened p.status then hits_of_legs p p.legs hits else hits)

  unfoldable pub open_hits : List (Position W) → List Hit
  open_hits groups = hits_from groups []

  -- `by_key`: the newest entry stands first, since a later group takes the place of an earlier one.
  unfoldable pub keys_from : List (Position W) → List GroupKey → List GroupKey
  keys_from [] keys = keys
  keys_from (p ∷ groups) keys = keys_from groups (
      if is_opened p.status && not p.exiting
      then record { underlying = p.underlying; expiry = p.expiry; group_id = p.id } ∷ keys
      else keys)

  abbrev pub in_leg : ℕ → (Leg W → Leg W) → Position W → Position W
  in_leg leg_id g p = record p {
    legs = map (λ (lg : Leg W). if lg.id == leg_id then g lg else lg) p.legs;
  }

  abbrev pub in_group : ℕ → (Position W → Position W) → List (Position W) → List (Position W)
  in_group group_id g groups = map (λ (p : Position W). if p.id == group_id then g p else p) groups

  -- The contract with its expiry and product, where it is not missing and has both.
  abbrev pub usable : Option (Contract W) → Option (Contract W × String × ℕ)
  usable none = none
  usable (some c) = elim c.expiry [
    | none ↦ none
    | some expiry ↦ elim c.product_id [ none ↦ none | some pid ↦ some (c, expiry, pid) ]
  ]

  -- `out.gone.append(hit); flipped.add(pid)`
  abbrev pub flip : Option Hit → ℕ → Reconciled W → Reconciled W
  flip none pid st = st
  flip (some h) pid st = record st { gone = st.gone ++ (h ∷ []); flipped = pid ∷ st.flipped }

  abbrev pub add_leg : ℕ → Leg W → Reconciled W → Reconciled W
  add_leg group_id lg st = record st {
    groups =
        in_group group_id (λ (p : Position W). record p { legs = p.legs ++ (lg ∷ []) }) st.groups;
    new_legs = st.new_legs ++ (lg.id ∷ []);
    fresh = suc lg.id;
  }

  abbrev pub matching : DeltaPosition W → Option Hit → Option Hit
  matching dp none = none
  matching dp (some h) = if is_side h.side (side_of dp.size) then some h else none

  -- `raw_pid or int(c.product_id)`
  abbrev pub pid_of : DeltaPosition W → ℕ → ℕ
  pid_of dp contract_pid = if dp.product_id == 0 then contract_pid else dp.product_id

  -- The last loop: what Delta no longer reports, and was not found flipped.
  unfoldable pub sweep_gone : List Hit → Reconciled W → Reconciled W
  sweep_gone hits st = record st {
    gone =
        st.gone
        ++ filter (λ (h : Hit). not (member h.pid st.seen) && not (member h.pid st.flipped)) hits;
  }

module _ {W : Type 0} ⦃f : Float W⦄ where
  -- `float(dp.get("entry_price") or c.mark_price or 0)`
  abbrev pub entry_of : DeltaPosition W → Contract W → W
  entry_of dp c = or_default dp.entry_price (opt_or c.mark_price nought)

  -- A leg that Delta still reports: its size and entry, unless the group is exiting, and its margin.
  abbrev pub refresh_leg : Bool → DeltaPosition W → W → Leg W → Leg W
  refresh_leg exiting dp entry lg =
      let sized =
        if exiting then lg else record lg { qty = f.of_ℕ (magnitude dp.size); entry = entry } in
      elim dp.margin [ none ↦ sized | some m ↦ record sized { last_margin = some m } ]

  unfoldable pub refresh : Hit → DeltaPosition W → W → Reconciled W → Reconciled W
  refresh h dp entry st = record st {
    groups = in_group h.group_id (in_leg h.leg_id (refresh_leg h.exiting dp entry)) st.groups;
  }

module _ {W : Type 0} ⦃f : Float W⦄ (user_id : ℕ) (contract_of : String → Option (Contract W))
    (spot_of : String → W) (days_left : String → W) (now : ℕ) where
  -- `_new_group`
  unfoldable pub new_group : ℕ → String → String → Position W
  new_group id underlying expiry = record {
    id = id;
    user_id = user_id;
    name = concat underlying (concat " " (concat expiry " (live)"));
    underlying = underlying;
    expiry = expiry;
    margin = nought;
    entry_margin = nought;
    margin_badge = est;
    opened_at = now;
    status = opened;
    target_pnl = none;
    stop_loss_amount = none;
    stop_loss_pct_of_margin = none;
    target_pct_of_margin = none;
    auto_exit = false;
    auto_exit_suspended = false;
    stale_hard_stop = true;
    closed_at = none;
    close_reason = none;
    source = live;
    exiting = false;
    legs = [];
  }

  unfoldable pub new_leg : ℕ → DeltaPosition W → Contract W → String → ℕ → Leg W
  new_leg id dp c expiry pid =
      let entry = entry_of dp c in
      let underlying = underlying_of dp.parts in
      record {
        id = id;
        symbol = dp.symbol;
        product_id = pid;
        underlying = underlying;
        type = c.option_type;
        strike = c.strike;
        contract_value = opt_or c.contract_value (f.lit 1 3);
        expiry = expiry;
        dte = days_left expiry;
        side = side_of dp.size;
        qty = f.of_ℕ (magnitude dp.size);
        entry = entry;
        mark_at_entry = opt_or c.mark_price entry;
        spot_at_entry = spot_of underlying;
        target_pnl = none;
        stop_pnl = none;
        auto_exit = false;
        close_scope = strategy;
        status = opened;
        exit_price = none;
        exit_at = none;
        exit_reason = none;
        exit_gross = none;
        exit_fees = none;
        sl_price = none;
        tp_price = none;
        stop_order_id = none;
        stop_price = none;
        tp_order_id = none;
        entry_at = some now;
        entry_fees = none;
        entry_margin = dp.margin;
        last_margin = dp.margin;
        mark_at_exit = none;
      }

  abbrev pub add_group : String → String → Reconciled W → Reconciled W
  add_group underlying expiry st =
      let group_id = st.fresh in
      record st {
        groups = st.groups ++ (new_group group_id underlying expiry ∷ []);
        new_groups = st.new_groups ++ (group_id ∷ []);
        by_key =
            record { underlying = underlying; expiry = expiry; group_id = group_id } ∷ st.by_key;
        fresh = suc group_id;
      }

  -- The group of the key, a new one where there is none, takes the new leg.
  abbrev pub join_to :
      Option GroupKey → DeltaPosition W → Contract W → String → ℕ → Reconciled W → Reconciled W
  join_to (some k) dp c expiry pid st = add_leg k.group_id (new_leg st.fresh dp c expiry pid) st
  join_to none dp c expiry pid st =
      add_leg st.fresh (new_leg (suc st.fresh) dp c expiry pid)
        (add_group (underlying_of dp.parts) expiry st)

  unfoldable pub join : DeltaPosition W → Contract W → String → ℕ → Reconciled W → Reconciled W
  join dp c expiry pid st =
      join_to (get_key (underlying_of dp.parts) expiry st.by_key) dp c expiry pid st

  abbrev pub on_match :
      Option Hit
      → Option Hit
      → DeltaPosition W
      → Contract W
      → String
      → ℕ
      → Reconciled W
      → Reconciled W
  on_match (some h) found dp c expiry pid st = refresh h dp (entry_of dp c) st
  on_match none found dp c expiry pid st = join dp c expiry pid (flip found pid st)

  abbrev pub on_contract :
      List Hit → Option (Contract W × String × ℕ) → DeltaPosition W → Reconciled W → Reconciled W
  on_contract hits none dp st =
      if is_some (hit_of dp.product_id hits)
      then st
      else record st { untracked = st.untracked ++ (dp.symbol ∷ []) }
  on_contract hits (some (c, expiry, contract_pid)) dp st =
      let pid = pid_of dp contract_pid in
      let found = hit_of pid hits in
      on_match (matching dp found) found dp c expiry pid (record st { seen = pid ∷ st.seen })

  -- The body of the loop over Delta's positions.
  unfoldable pub take : List Hit → DeltaPosition W → Reconciled W → Reconciled W
  take hits dp st =
      if is_zero dp.size
      then st
      else on_contract hits (usable (contract_of dp.symbol)) dp
          (record st { seen = dp.product_id ∷ st.seen })

  unfoldable pub take_all : List Hit → List (DeltaPosition W) → Reconciled W → Reconciled W
  take_all hits [] st = st
  take_all hits (dp ∷ dps) st = take_all hits dps (take hits dp st)

  unfoldable pub reconcile : List (Position W) → List (DeltaPosition W) → ℕ → Reconciled W
  reconcile groups dps fresh =
      let hits = open_hits groups in
      sweep_gone hits (
        take_all hits dps (record {
          groups = groups;
          new_groups = [];
          gone = [];
          untracked = [];
          new_legs = [];
          by_key = keys_from groups [];
          seen = [];
          flipped = [];
          fresh = fresh;
        }))
