-- ===== src/Reactions/Kinds.antt =====
-- The molecules of one kind in apps/q5, and what the reactions take and give of them.
use lab.Prelude.{ℕ, zero, suc, ◌≡◌, refl, arith}
use lab.Reactions.Atmosphere.{n3, h2o, n, o2, Reaction, r1, r2, r3, react, consumer, Counts}
use lab.Reactions.Conservation.{Weight, weigh, times, to_give, to_take, times_0, times_1}

-- The weights that count the molecules of one kind.
abbrev pub only_n3 : Weight
only_n3 n3 = 1
only_n3 _ = 0

abbrev pub only_h2o : Weight
only_h2o h2o = 1
only_h2o _ = 0

abbrev pub only_n : Weight
only_n n = 1
only_n _ = 0

abbrev pub only_o2 : Weight
only_o2 o2 = 1
only_o2 _ = 0

-- What the reactions take and give, as often as they happen.
pub consumer-weight :
    (w : Weight) (r : Reaction) (k : ℕ)
    → (to_give w (consumer r k) ≡ times (to_give w (react r)) k)
      × (to_take w (consumer r k) ≡ times (to_take w (react r)) k)
unfolding consumer react
consumer-weight w r zero = (refl, refl)
consumer-weight w r1 (suc k) =
    let (gives, takes) = consumer-weight w r1 k in (omega (arith, gives), omega (arith, takes))
consumer-weight w r2 (suc k) =
    let (gives, takes) = consumer-weight w r2 k in (omega (arith, gives), omega (arith, takes))
consumer-weight w r3 (suc k) =
    let (gives, takes) = consumer-weight w r3 k in (omega (arith, gives), omega (arith, takes))

pub weigh-n3 : (c : Counts) → weigh only_n3 c ≡ c.of_n3
weigh-n3 c = omega (
  arith,
  times_1 c.of_n3,
  times_0 c.of_h2o,
  times_0 c.of_n,
  times_0 c.of_h2,
  times_0 c.of_o2,
  times_0 c.of_no2,
)

pub weigh-h2o : (c : Counts) → weigh only_h2o c ≡ c.of_h2o
weigh-h2o c = omega (
  arith,
  times_0 c.of_n3,
  times_1 c.of_h2o,
  times_0 c.of_n,
  times_0 c.of_h2,
  times_0 c.of_o2,
  times_0 c.of_no2,
)

pub weigh-n : (c : Counts) → weigh only_n c ≡ c.of_n
weigh-n c = omega (
  arith,
  times_0 c.of_n3,
  times_0 c.of_h2o,
  times_1 c.of_n,
  times_0 c.of_h2,
  times_0 c.of_o2,
  times_0 c.of_no2,
)

pub weigh-o2 : (c : Counts) → weigh only_o2 c ≡ c.of_o2
weigh-o2 c = omega (
  arith,
  times_0 c.of_n3,
  times_0 c.of_h2o,
  times_0 c.of_n,
  times_0 c.of_h2,
  times_1 c.of_o2,
  times_0 c.of_no2,
)
