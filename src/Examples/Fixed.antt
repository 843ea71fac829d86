-- ===== src/Examples/Fixed.antt =====
-- An arithmetic for the examples: hundredths, as integers.
use project_constellation.Prelude.{
  ℕ, zero, suc, ◌+◌, ◌*◌, ◌/◌, ◌^◌, ℤ, pos, ltb_ℤ, arith, Float, if◌then◌else◌,
}
use project_constellation.Prelude.Int.{pos_part, neg_part, sub_ℕ}
use project_constellation.Scheduler.Placement.Best.{IsStrict}

abbrev times : ℤ → ℤ → ℤ
times a b =
    sub_ℕ (pos_part a * pos_part b + neg_part a * neg_part b)
      (pos_part a * neg_part b + neg_part a * pos_part b)

abbrev over : ℤ → ℕ → ℤ
over a zero = pos 0
over a (suc n) = sub_ℕ (pos_part a / suc n) (neg_part a / suc n)

abbrev minus : ℤ → ℤ → ℤ
minus a b = sub_ℕ (pos_part a + neg_part b) (neg_part a + pos_part b)

instance abbrev pub hundredths : Float ℤ
hundredths = record {
  of_int = λ n. times n (pos 100);
  to_int = λ x. over x 100;
  decimal = λ m k. pos (m * 100 / 10 ^ k);
  add = λ a b. sub_ℕ (pos_part a + pos_part b) (neg_part a + neg_part b);
  sub = minus;
  mul = λ a b. over (times a b) 100;
  div = λ a b. over (times a (pos 100)) (pos_part b);
  min = λ a b. if ltb_ℤ a b then a else b;
  lt = ltb_ℤ;
}

pub hundredths-IsStrict : IsStrict hundredths
hundredths-IsStrict = record { irrefl = λ a. ground arith; trans = λ a b c h k. ground arith }
