-- ===== src/Sync/Exits/Lasting.antt =====
-- The steps of the live sync that touch exits: a group that is marked as exiting stays so.
use Prim.Native.String.{String}
use delta_paper_trader.Float.{Float}
