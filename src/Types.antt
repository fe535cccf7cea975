-- ===== src/Types.antt =====
-- The literal types that the backend's modules share (`Literal["buy", "sell"]` and the like).

pub data Side : Type 0 where
  buy sell : Side

-- `future` is an instrument of the margin engine alone; a leg in the database is a call or a put.
pub data OptType : Type 0 where
  call put future : OptType

pub data Status : Type 0 where
  opened closed : Status

pub data CloseScope : Type 0 where
  leg strategy : CloseScope
