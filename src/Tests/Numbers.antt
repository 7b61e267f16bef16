-- ===== src/Tests/Numbers.antt =====
-- A float64 for the tests: thousandths.
use bluge.Base.{ℕ, ◌+◌, ◌*◌, ◌/◌, ◌^◌, arith, ltb}
use bluge.Base.Floats.{FloatOps, FloatOrder}

abbrev pub thousandths : FloatOps ℕ
thousandths = record {
  of_int = λ n. n * 1000;
  decimal = λ m e. m * 1000 / 10 ^ e;
  add = λ a b. a + b;
  mul = λ a b. a * b / 1000;
  div = λ a b. a * 1000 / b;
  pow = λ a b. a;
  lt = ltb;
  ceil_int = λ a. (a + 999) / 1000;
  trunc_int = λ a. a / 1000;
}

pub thousandths-order : FloatOrder thousandths
thousandths-order = record {
  irrefl = λ a. ground arith;
  asym = λ a b h. ground arith;
  negtrans = λ a b c h k. ground arith;
}
