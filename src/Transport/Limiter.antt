-- ===== src/Transport/Limiter.antt =====
-- cirque-server/src/connection_validator.rs. Instants are nanoseconds, and an `IpAddr` is the number
-- that stands for the address.
pub mod Laws
use cirque.Base.{ℕ, ◌-◌, Bool, true, false, not, if◌then◌else◌, none, some, List, []}
use cirque.Base.Map.{HashMap, get, insert, retain, map_values, id_eq}

-- The arithmetic of `f64`, which is the machine's.
pub record F64 : Type 1 where
  pub carrier : Type 0
  pub add : carrier → carrier → carrier
  pub sub : carrier → carrier → carrier
  pub mul : carrier → carrier → carrier
  pub div : carrier → carrier → carrier
  pub max : carrier → carrier → carrier
  pub min : carrier → carrier → carrier
  pub lt : carrier → carrier → Bool
  pub ge : carrier → carrier → Bool
  pub ne : carrier → carrier → Bool
  -- A literal of so many thousandths.
  pub literal : ℕ → carrier
  -- `Duration::as_secs_f64`
  pub as_secs_f64 : ℕ → carrier

abbrev pub IpAddr : Type 0
IpAddr = ℕ

pub record Config (f : F64) : Type 0 where
  pub cost_per_connection : f.carrier
  pub cost_multiplier : f.carrier
  pub max_fill_rate : f.carrier
  pub max_credits : f.carrier

pub record Stats (f : F64) : Type 0 where
  pub credits : f.carrier
  pub fill_rate : f.carrier
  pub last_refill : ℕ

pub record ConnectionLimiter (f : F64) : Type 0 where
  pub stats : HashMap IpAddr (Stats f)
  pub config : Config f

module _ (f : F64) where
  -- `ConnectionLimiter::new`
  unfoldable pub new : ConnectionLimiter f
  new = record {
    stats = [];
    config = record {
      cost_per_connection = f.literal 1000000;
      cost_multiplier = f.literal 1618;
      max_fill_rate = f.literal 100000;
      max_credits = f.literal 1000000;
    };
  }

  -- `Stats::new`, at the time `now`
  abbrev pub new_stats : Config f → ℕ → Stats f
  new_stats config now = record {
    credits = config.max_credits;
    fill_rate = config.max_fill_rate;
    last_refill = now;
  }

  -- `duration_since` gives 0 where the other instant is later.
  unfoldable pub refill : Config f → ℕ → Stats f → Stats f
  refill config now self =
      let added_fuel = f.mul (f.as_secs_f64 (now - self.last_refill)) self.fill_rate in
      let credits = f.add self.credits added_fuel in
      if f.ge credits config.max_credits
      then record {
        credits = config.max_credits;
        fill_rate = config.max_fill_rate;
        last_refill = now;
      }
      else record { credits = credits; fill_rate = self.fill_rate; last_refill = now }

  unfoldable pub consume_one : Config f → Stats f → Stats f × Bool
  consume_one config self =
      if f.lt self.credits config.cost_per_connection
      then (
        record self {
          fill_rate = f.max (f.div self.fill_rate config.cost_multiplier) (f.literal 10);
        },
        false,
      )
      else (
        record self {
          credits = f.sub self.credits config.cost_per_connection;
          fill_rate = f.min (f.mul self.fill_rate config.cost_multiplier) config.max_fill_rate;
        },
        true,
      )

  -- The test of the clean-up: the address does not have all credits.
  abbrev pub is_indebted : Config f → Stats f → Bool
  is_indebted config stats = f.ne stats.credits config.max_credits

  -- `entry(ip).or_insert_with(..)`; the entry is made at the time `created`.
  abbrev pub stats_of : ConnectionLimiter f → IpAddr → ℕ → Stats f
  stats_of self ip created = elim (get ip self.stats) [
    | none ↦ new_stats self.config created
    | some stats ↦ stats
  ]

  -- The limiter afterwards, and whether the connection is let in.
  unfoldable pub validate_at_time :
      ConnectionLimiter f → IpAddr → ℕ → ℕ → ConnectionLimiter f × Bool
  unfolding refill consume_one
  validate_at_time self ip now created =
      let (stats, accepted) =
        consume_one self.config (refill self.config now (stats_of self ip created)) in
      let entered = insert ip stats self.stats in
      if accepted
      then (
        record self {
          stats = retain (is_indebted self.config) (map_values (refill self.config now) entered);
        },
        true,
      )
      else (record self { stats = entered }, false)
