-- ===== src/Sys/Samples.antt =====
-- A concrete `f32` for runs of the code: natural numbers in thousandths, negative results cut to 0.
use moonlight_scarlet.Prelude.{ℕ, ◌*◌, ◌/◌, ◌-◌, true, leb, ltb}
use moonlight_scarlet.Prelude.Int.{pos, pos_part}
use moonlight_scarlet.Sys.Floats.{Float32}

abbrev pub thousandths : Float32
thousandths = record {
  Carrier = ℕ;
  of_int = λ n. pos_part n * 1000;
  of_nat = λ n. n * 1000;
  zero = 0;
  half = 500;
  one = 1000;
  extent = 32767000;
  round_i16 = λ x. pos (x / 1000);
  sub = λ a b. a - b;
  mul = λ a b. a * b / 1000;
  div = λ a b. a * 1000 / b;
  le = leb;
  lt = ltb;
  is_finite = λ x. true;
}
