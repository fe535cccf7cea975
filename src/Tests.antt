-- ===== src/Tests.antt =====
-- Examples: the theorems at concrete inputs, on the numbers of four decimals of Float/Fixed.
mod Exits
mod Exchange
mod Paper
mod Trading
mod Services
mod Groups
mod Margins
mod Limits
mod Prices
mod Records
