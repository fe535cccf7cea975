-- ===== src/Float.antt =====
-- The numbers of the program: Python's `float` (and `Decimal`, in the slippage engine). The model
-- takes their type and operations as a parameter, so a theorem holds for every arithmetic with the
-- laws that it names. The laws below hold for correctly rounded arithmetic: they ask for
-- no associativity and no distributivity. They leave NaN aside and do not tell -0.0 from 0.0.
mod Interface
pub mod Laws
pub mod Fixed
pub use Interface.*
