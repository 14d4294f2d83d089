-- ===== src/Times.antt =====
-- `time.Time` and `time.Duration`, as far as the program uses them. An instant is the number of
-- nanoseconds since the zero Time (midnight UTC of 1 January of the year 1), so the model has the
-- instants that RFC 3339 can write from that year on; the offset is that of the timestamp's own
-- zone, in seconds east of UTC. A Duration is a number of nanoseconds with a sign.
use roadbook.Prelude.{ℕ, ◌+◌, ◌-◌, ◌*◌, ◌/◌, min, Bool, ltb, ◌==◌}
use roadbook.Prelude.Int.{ℤ, pos, negsuc, sub_ℕ, pos_part, neg_part}
use roadbook.Floats.{Float, in_units}

pub record Time : Type 0 where
  pub instant : ℕ
  pub offset : ℤ

abbrev pub second_ns : ℕ
second_ns = 1_000_000_000

abbrev pub minute_ns : ℕ
minute_ns = 60_000_000_000

abbrev pub hour_ns : ℕ
hour_ns = 3_600_000_000_000

abbrev pub day_ns : ℕ
day_ns = 86_400_000_000_000

-- `t.Before(u)`, `t.After(u)`, `t.Equal(u)`: the instants alone.
abbrev pub before : Time → Time → Bool
before t u = ltb t.instant u.instant

abbrev pub after : Time → Time → Bool
after t u = ltb u.instant t.instant

abbrev pub equal : Time → Time → Bool
equal t u = t.instant == u.instant

-- A Duration saturates at the ends of int64.
abbrev pub saturate : ℤ → ℤ
saturate (pos n) = pos (min n 9_223_372_036_854_775_807)
saturate (negsuc n) = negsuc (min n 9_223_372_036_854_775_807)

-- `t.Sub(u)`.
abbrev pub time_sub : Time → Time → ℤ
time_sub t u = saturate (sub_ℕ t.instant u.instant)

module _ {F : Type 0} ⦃fl : Float F⦄ where
  abbrev pub hours : ℤ → F
  hours = in_units hour_ns

  abbrev pub minutes : ℤ → F
  minutes = in_units minute_ns

  abbrev pub seconds : ℤ → F
  seconds = in_units second_ns

-- The days from the zero Time to the date that the timestamp shows in its own offset.
abbrev pub civil_day : Time → ℕ
civil_day t = (t.instant + pos_part t.offset * second_ns - neg_part t.offset * second_ns) / day_ns

-- Midnight UTC of a civil day.
abbrev pub midnight : ℕ → Time
midnight day = record { instant = day * day_ns; offset = pos 0 }
