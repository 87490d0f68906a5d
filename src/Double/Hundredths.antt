-- ===== src/Double/Hundredths.antt =====
-- An arithmetic that meets the laws asked of a double, for evaluating the models at examples: an
-- integer stands for that many hundredths.
use os_project.Prelude.{◌+◌, ◌*◌, ◌/◌, arith, if◌then◌else◌}
use os_project.Prelude.Int.{ℤ, pos, negsuc, ◌+ℤ◌, ◌-ℤ◌, ltb_ℤ, pos_part}
use os_project.Double.{Double, Truncates}

abbrev pub whole : ℤ → ℤ
whole (pos n) = pos (100 * n)
whole (negsuc n) = negsuc (100 * n + 99)

-- the quotient of two numbers of which the second is positive
abbrev pub ratio : ℤ → ℤ → ℤ
ratio a b = if ltb_ℤ a (pos 0) then pos 0 else pos (100 * pos_part a / pos_part b)

abbrev pub hundredths : Double ℤ
hundredths = record {
  of_int = whole;
  add = ◌+ℤ◌;
  sub = ◌-ℤ◌;
  mul = λ a b. pos (pos_part a * pos_part b / 100);
  div = ratio;
  lt = ltb_ℤ;
  to_uint = λ a. pos_part a / 100;
}

pub hundredths-Truncates : Truncates hundredths
hundredths-Truncates = record {
  trunc_le = λ x h. ground arith;
  trunc_mono = λ x m h l. ground arith;
  lt_mono = λ x m n h l. ground arith;
}
