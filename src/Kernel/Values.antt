-- ===== src/Kernel/Values.antt =====
-- A Python value whose class the code tests: a constructor's argument, or a cell of a row that the
-- database returned.
--
-- `day` is a date that is not a datetime, `stamp` a datetime. `decimal` is a finite Decimal, in
-- ten-thousandths, the scale of the column that holds it.
use orgmetra.Base.{ℕ, String, Bool}
use orgmetra.Base.Int.{ℤ}
use orgmetra.Kernel.Intervals.{Datetime}

pub data Cell : Type 0 where
  uuid : ℕ → Cell
  text : String → Cell
  day : ℕ → Cell
  stamp : Datetime → Cell
  decimal : ℤ → Cell
  flag : Bool → Cell
  nothing : Cell
  other : Cell
