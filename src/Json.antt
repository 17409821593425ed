-- ===== src/Json.antt =====
-- The values that encoding/json writes: numbers and timestamps stand for their texts.
use go_healthcheck.Prelude.{ℕ, String, Bool, List, [], ◌∷◌}
use go_healthcheck.Prelude.Int.{ℤ, pos}

-- The zone of a time.Time: an offset from UTC in seconds.
pub data Zone : Type 0 where
  utc_zone : Zone
  east west : ℕ → Zone

-- time.Time: nanoseconds since the zero time, 1 January of year 1, 00:00:00 UTC; a time before it
-- is negative.
pub record Time : Type 0 where
  pub instant : ℤ
  pub zone : Zone

-- The zero value of time.Time.
abbrev pub zero_time : Time
zero_time = record { instant = pos 0; zone = utc_zone }

mutual
  pub data Json : Type 0 where
    null : Json
    boolean : Bool → Json
    -- a number, by its literal
    number : String → Json
    -- the number of seconds that so many nanoseconds make, as a float64 prints
    seconds_number : ℕ → Json
    text : String → Json
    -- a time in the format of RFC 3339
    timestamp : Time → Json
    array : Items → Json
    object : Members → Json

  pub data Items : Type 0 where
    nil : Items
    item : Json → Items → Items

  pub data Members : Type 0 where
    end : Members
    member : String → Json → Members → Members

abbrev pub texts : List String → Items
texts [] = nil
texts (s ∷ ss) = item (text s) (texts ss)
