-- ===== src/Tests/Data.antt =====
-- A machine, its readings, a store, and a broker that acknowledges a bounded number of messages.
use mathlib.Core.List.{Sublist, sublist-append_left}
use mathlib.Core.List.Sublist
use factoryfleet.Base.{
  ℕ, zero, suc, ◌≡◌, refl, Bool, true, false, none, some, inl, inr, All, List, [], ◌∷◌, ◌++◌, arith,
}
use factoryfleet.Config.Types.{AssetIdentity}
use factoryfleet.Json.{Number, ℤ, Fields, end, field, num}
use factoryfleet.Sensors.Reading.{Reading, healthy, failed}
use factoryfleet.Sensors.Metrics.{is_finite}
use factoryfleet.Wire.Conforms.{IsSound}
use factoryfleet.Timeutil.{Datetime, IsDatetime, TzInfo, days_in_month}
use factoryfleet.Transport.Broker.{BrokerClient, IsConfirming, Message}

abbrev pub noon : Datetime
noon = record {
  year = 2026;
  month = 7;
  day = 30;
  hour = 12;
  minute = 0;
  second = 5;
  microsecond = 123456;
  tzinfo = TzInfo.naive;
}

pub IsDatetime-noon : IsDatetime noon
unfolding days_in_month
IsDatetime-noon = omega arith

-- A clock that stands still.
abbrev pub stopped_clock : ℕ → Datetime
stopped_clock n = noon

abbrev pub press : AssetIdentity
press = record {
  site_id = "PLANT-A";
  asset_id = "PRESS-01";
  machine_type = "HYDRAULIC_PRESS";
  firmware_version = "2.4.1";
}

abbrev pub vibration : Reading
vibration = record {
  sensor_id = "vibration";
  captured_at = noon;
  metrics = ("rms_mm_s", Number.int (ℤ.pos 4)) ∷ [];
  condition = healthy;
  error = none;
}

abbrev pub seized : Reading
seized = record {
  sensor_id = "temperature";
  captured_at = noon;
  metrics = [];
  condition = failed;
  error = some "SensorError: seized";
}

pub IsSound-both : All IsSound (vibration ∷ seized ∷ [])
unfolding is_finite
IsSound-both = (
  record {
    timed = IsDatetime-noon;
    legible = record { finite = (refl, tt); explained = inl refl };
  },
  (
    record {
      timed = IsDatetime-noon;
      legible = record { finite = tt; explained = inr (refl, "SensorError: seized", refl) };
    },
    tt,
  ),
)

abbrev pub payload : ℕ → Fields
payload n = field "n" (num (Number.int (ℤ.pos n))) end

-- A broker that still confirms `budget` messages and then none.
pub record Budget : Type 0 where
  pub budget : ℕ
  pub log : List Message

abbrev pub confirm : ℕ → Message → List Message → Bool × Budget
confirm zero m log = (false, record { budget = 0; log = log })
confirm (suc n) m log = (true, record { budget = n; log = log ++ (m ∷ []) })

abbrev pub budget_broker : BrokerClient
budget_broker = record {
  State = Budget;
  start = λ b. b;
  stop = λ b. b;
  is_connected = λ b. (true, b);
  publish = λ topic payload b. confirm b.budget (topic, payload) b.log;
  received = λ b. b.log;
}

confirm-keeps : (n : ℕ) (m : Message) (log : List Message) → Sublist log (confirm n m log).1.log
confirm-keeps zero m log = Sublist.refl log
confirm-keeps (suc n) m log = sublist-append_left log (m ∷ [])

confirm-confirms :
    (n : ℕ) (m : Message) (log : List Message)
    → (confirm n m log).0 ≡ true
    → Sublist (log ++ (m ∷ [])) (confirm n m log).1.log
confirm-confirms zero m log h = absurd (ground (arith, h))
confirm-confirms (suc n) m log h = Sublist.refl _

pub IsConfirming-budget_broker : IsConfirming budget_broker
IsConfirming-budget_broker = record {
  is_connected-keeps = λ b. Sublist.refl _;
  publish-keeps = λ topic payload b. confirm-keeps b.budget (topic, payload) b.log;
  publish-confirms = λ topic payload b. confirm-confirms b.budget (topic, payload) b.log;
}
