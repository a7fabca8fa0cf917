-- ===== src/Tests/Limiting.antt =====
-- The theorems about the connection limiter, with fixed-point numbers of thousandths for the machine's.
use cirque.Base.{
  ℕ, zero, suc, ◌+◌, ◌-◌, ◌*◌, ◌/◌, ◌≤◌, true, not, ◌==◌, ltb, leb, if◌then◌else◌, [], ◌∷◌, ◌≡◌,
  refl, arith,
}
use mathlib.Core.Option
use cirque.Base.Map.{HashMap, get, id_eq}
use cirque.Base.Map.Laws.{kept}
use cirque.Transport.Limiter.{
  F64, Stats, IpAddr, ConnectionLimiter, validate_at_time, is_indebted, refill,
}
use cirque.Transport.Limiter.Laws.{
  Documented, limiter_with, validate_at_time-others, validate_at_time-flood,
}

abbrev pub thousandths : F64
thousandths = record {
  carrier = ℕ;
  add = λ a b. a + b;
  sub = λ a b. a - b;
  mul = λ a b. a * (b / 1000);
  div = λ a b. a * 1000 / b;
  max = λ a b. if leb a b then b else a;
  min = λ a b. if leb a b then a else b;
  lt = ltb;
  ge = λ a b. leb b a;
  ne = λ a b. not (a == b);
  literal = λ n. n;
  as_secs_f64 = λ n. n / 1000000;
}

le_mul : (n k : ℕ) → 1 ≤ k → n ≤ n * k
le_mul n zero h = absurd (omega arith)
le_mul n (suc k) h = omega arith

thousandths-Documented : Documented thousandths
thousandths-Documented = record {
  as_secs_zero = refl;
  mul_zero = λ n _. omega arith;
  add_zero = λ n _. omega arith;
  sub_self = λ n _. omega arith;
  min_mul = λ n m _ h _.
      let whole : 1 ≤ m / 1000 = omega arith in
      let grows = le_mul n (m / 1000) whole in ground arith;
  lt_literal = λ n m _ _. refl;
  ge_literal = λ n m _ _. refl;
  ne_literal = λ n m _ _. refl;
}

abbrev other_stats : Stats thousandths
other_stats = record { credits = 300000; fill_rate = 50000; last_refill = 0 }

abbrev known : HashMap IpAddr (Stats thousandths)
known = (9, other_stats) ∷ []

abbrev limiter : ConnectionLimiter thousandths
limiter = limiter_with thousandths known

validate_at_time-flood_example : (validate_at_time thousandths limiter 7 1000 1200).1 ≡ true
unfolding get
validate_at_time-flood_example =
    (validate_at_time-flood thousandths thousandths-Documented known (refl, tt) 7 1000 1200 refl
      (omega arith)).0

validate_at_time-others_example :
    get 9 (validate_at_time thousandths limiter 7 1000 1200).0.stats ≡ (
      if (validate_at_time thousandths limiter 7 1000 1200).1
      then kept
          (is_indebted thousandths limiter.config)
          (Option.map (refill thousandths limiter.config 1000) (get 9 known))
      else get 9 known)
unfolding get
validate_at_time-others_example =
    validate_at_time-others thousandths limiter (refl, tt) 7 1000 1200 9 (ground arith)
