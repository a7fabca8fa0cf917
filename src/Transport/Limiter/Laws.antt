-- ===== src/Transport/Limiter/Laws.antt =====
-- What the limiter does to the addresses.
use cirque.Base.{
  ℕ, ◌==◌, ◌≤◌, ◌-◌, true, false, not, ltb, leb, if◌then◌else◌, none, some, ◌≡◌, ◌≢◌, refl, arith,
}
use mathlib.Core.Option
use cirque.Base.Map.{HashMap, get, insert, retain, map_values, id_eq}
use cirque.Base.Map.Laws.{
  Distinct, kept, get-insert, get-retain, get-map_values, insert-Distinct, map_values-Distinct,
}
use cirque.Transport.Limiter.{
  F64, IpAddr, Config, Stats, ConnectionLimiter, new, new_stats, refill, consume_one, is_indebted,
  stats_of, validate_at_time,
}

module _ (f : F64) (limiter : ConnectionLimiter f) (distinct : Distinct limiter.stats) (ip : IpAddr)
    (now created : ℕ) where
  -- In a limiter with one entry for an address, a connection from one address is not charged to
  -- another one: if it is refused, the entry of any other address is as it was; if it is let in, that
  -- entry is refilled up to now, and it is gone if the address then has all credits.
  pub validate_at_time-others :
      (other : IpAddr)
      → other ≢ ip
      → get other (validate_at_time f limiter ip now created).0.stats ≡ (
          if (validate_at_time f limiter ip now created).1
          then kept
              (is_indebted f limiter.config)
              (Option.map (refill f limiter.config now) (get other limiter.stats))
          else get other limiter.stats)
  unfolding validate_at_time
  validate_at_time-others other ne =
      let spent =
        consume_one f limiter.config
          (refill f limiter.config now (stats_of f limiter ip created)) in
      let entered = insert ip spent.0 limiter.stats in
      let refilled = map_values (refill f limiter.config now) entered in
      let d =
        map_values-Distinct (refill f limiter.config now) entered
          (insert-Distinct ip spent.0 limiter.stats distinct) in
      ground (
        arith,
        get-retain other (is_indebted f limiter.config) refilled d,
        get-map_values other (refill f limiter.config now) entered,
        get-insert ip other spent.0 limiter.stats,
      )

-- What IEEE 754 says of literals of up to 1000, in thousandths: zero is neutral, they compare as the
-- numbers that they stand for, and the product is monotone.
pub record Documented (f : F64) : Type 0 where
  pub as_secs_zero : f.as_secs_f64 0 ≡ f.literal 0
  pub mul_zero : (n : ℕ) → n ≤ 1000000 → f.mul (f.literal 0) (f.literal n) ≡ f.literal 0
  pub add_zero : (n : ℕ) → n ≤ 1000000 → f.add (f.literal n) (f.literal 0) ≡ f.literal n
  pub sub_self : (n : ℕ) → n ≤ 1000000 → f.sub (f.literal n) (f.literal n) ≡ f.literal 0
  pub min_mul :
      (n m : ℕ)
      → n ≤ 1000000
      → 1000 ≤ m
      → m ≤ 1000000
      → f.min (f.mul (f.literal n) (f.literal m)) (f.literal n) ≡ f.literal n
  pub lt_literal :
      (n m : ℕ) → n ≤ 1000000 → m ≤ 1000000 → f.lt (f.literal n) (f.literal m) ≡ ltb n m
  pub ge_literal :
      (n m : ℕ) → n ≤ 1000000 → m ≤ 1000000 → f.ge (f.literal n) (f.literal m) ≡ leb m n
  pub ne_literal :
      (n m : ℕ) → n ≤ 1000000 → m ≤ 1000000 → f.ne (f.literal n) (f.literal m) ≡ not (n == m)

module _ (f : F64) where
  abbrev pub standard : Config f
  standard = (new f).config

  -- The entry of an address that has used up its credits at the time `now`.
  abbrev pub spent_at : ℕ → Stats f
  spent_at now = record { credits = f.literal 0; fill_rate = f.literal 100000; last_refill = now }

  abbrev pub limiter_with : HashMap IpAddr (Stats f) → ConnectionLimiter f
  limiter_with stats = record { stats = stats; config = standard }

module _ (f : F64) (doc : Documented f) where
  refill-new :
      (now created : ℕ)
      → now ≤ created
      → refill f (standard f) now (new_stats f (standard f) created) ≡ new_stats f (standard f) now
  unfolding refill new
  refill-new now created h =
      let soon : now - created ≡ 0 = omega arith in
      rw
        (
          soon,
          doc.as_secs_zero,
          doc.mul_zero 100000 (omega arith),
          doc.add_zero 1000000 (omega arith),
          doc.ge_literal 1000000 1000000 (omega arith) (omega arith),
        )
        refl

  consume-new :
      (now : ℕ) → consume_one f (standard f) (new_stats f (standard f) now) ≡ (spent_at f now, true)
  unfolding consume_one new
  consume-new now =
      rw
        (
          doc.lt_literal 1000000 1000000 (omega arith) (omega arith),
          doc.sub_self 1000000 (omega arith),
          doc.min_mul 100000 1618 (omega arith) (omega arith) (omega arith),
        )
        refl

  refill-spent : (now : ℕ) → refill f (standard f) now (spent_at f now) ≡ spent_at f now
  unfolding refill new
  refill-spent now =
      let none_passed : now - now ≡ 0 = omega arith in
      rw
        (
          none_passed,
          doc.as_secs_zero,
          doc.mul_zero 100000 (omega arith),
          doc.add_zero 0 (omega arith),
          doc.ge_literal 0 1000000 (omega arith) (omega arith),
        )
        refl

  refused-spent :
      (stats : HashMap IpAddr (Stats f)) (ip : IpAddr) (now created : ℕ)
      → get ip stats ≡ some (spent_at f now)
      → (validate_at_time f (limiter_with f stats) ip now created).1 ≡ false
  unfolding validate_at_time consume_one new get
  refused-spent stats ip now created e =
      rw (e, refill-spent now, doc.lt_literal 0 1000000 (omega arith) (omega arith)) refl

  module _ (stats : HashMap IpAddr (Stats f)) (distinct : Distinct stats) (ip : IpAddr)
      (now created : ℕ) where
    abbrev after_first : HashMap IpAddr (Stats f)
    after_first =
        retain (is_indebted f (standard f))
          (map_values (refill f (standard f) now) (insert ip (spent_at f now) stats))

    first-accepted :
        get ip stats ≡ none
        → now ≤ created
        → validate_at_time f (limiter_with f stats) ip now created
          ≡ (limiter_with f after_first, true)
    unfolding validate_at_time get new retain insert
    first-accepted e h = rw (e, refill-new now created h, consume-new now) refl

    after_first-get : get ip after_first ≡ some (spent_at f now)
    unfolding new
    after_first-get =
        let entered = insert ip (spent_at f now) stats in
        let d =
          map_values-Distinct (refill f (standard f) now) entered
            (insert-Distinct ip (spent_at f now) stats distinct) in
        rw
          (
            get-retain ip (is_indebted f (standard f))
                (map_values (refill f (standard f) now) entered) d,
            get-map_values ip (refill f (standard f) now) entered,
            get-insert ip ip (spent_at f now) stats,
            id_eq.beq_refl ip,
            refill-spent now,
            doc.ne_literal 0 1000000 (omega arith) (omega arith),
          )
          refl

    -- Under the documented behaviour of the numbers and the limiter's own configuration, with one
    -- entry for an address: a connection from an address without an entry, which is made no earlier
    -- than the connection, is let in, and another one from it at the same instant is refused.
    pub validate_at_time-flood :
        get ip stats ≡ none
        → now ≤ created
        → ((validate_at_time f (limiter_with f stats) ip now created).1 ≡ true)
          × ((later : ℕ)
              → (validate_at_time f
                  (validate_at_time f (limiter_with f stats) ip now created).0
                  ip
                  now
                  later).1
                ≡ false)
    validate_at_time-flood e h =
        rw (first-accepted e h)
          (refl, λ later. refused-spent after_first ip now later after_first-get)
