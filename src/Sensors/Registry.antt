-- ===== src/Sensors/Registry.antt =====
-- The registry of sensor types, from agent/factoryfleet_agent/sensors/base.py. A class is a parameter:
-- its name, whether it is a `Sensor` subclass, the identity test `is`, and what its constructor does.
pub mod Laws
use Prim.Native.Nat.{Ordering}
use Prim.Native.String.{compare}
use factoryfleet.Base.{
  ◌≡◌, ◌↔◌, Bool, true, false, not, String, ◌<>◌, Option, none, some, List, [], ◌∷◌, str_eq,
  is_empty, if◌then◌else◌,
}
use factoryfleet.Config.Types.{SensorConfig}
use factoryfleet.Sensors.Metrics.{Error, Result, ok, raised, ◌>>=◌}

pub record Classes : Type 1 where
  pub Class : Type 0
  pub Instance : Type 0
  pub name : Class → String
  pub is_sensor : Class → Bool
  pub is : Class → Class → Bool
  pub construct : Class → SensorConfig → Result Instance

abbrev exception : String → String → Error
exception type_name message = record {
  type_name = type_name;
  message = message;
  is_exception = true;
}

-- `sorted` on the keys, which are distinct, and `", ".join`.
unfoldable pub insert_name : String → List String → List String
insert_name name [] = name ∷ []
insert_name name (n ∷ ns) =
    let rest = insert_name name ns in
    elim (compare name n) [
      | Ordering.lt ↦ name ∷ n ∷ ns
      | Ordering.eq ↦ name ∷ n ∷ ns
      | Ordering.gt ↦ n ∷ rest
    ]

unfoldable pub sorted : List String → List String
unfolding insert_name
sorted [] = []
sorted (n ∷ ns) = insert_name n (sorted ns)

unfoldable pub join : List String → String
join [] = ""
join (n ∷ []) = n
join (n ∷ m ∷ ns) = n <> (", " <> join (m ∷ ns))

module _ (C : Classes) where
  -- `_REGISTRY`, in the order of insertion.
  abbrev pub Registry : Type 0
  Registry = List (String × C.Class)

  -- `_REGISTRY.get(type_name)`
  unfoldable pub find : String → Registry → Option C.Class
  find type_name [] = none
  find type_name ((t, c) ∷ rest) = if str_eq t type_name then some c else find type_name rest

  unfoldable pub insert : String → C.Class → Registry → Registry
  insert type_name cls [] = (type_name, cls) ∷ []
  insert type_name cls ((t, c) ∷ rest) =
      if str_eq t type_name then (t, cls) ∷ rest else (t, c) ∷ insert type_name cls rest

  unfoldable pub is_taken : Option C.Class → C.Class → Bool
  is_taken none cls = false
  is_taken (some existing) cls = not (C.is existing cls)

  abbrev pub name_of : Option C.Class → String
  name_of none = ""
  name_of (some existing) = C.name existing

  abbrev pub not_sensor : String → Error
  not_sensor type_name =
      exception "TypeError" ("@register('" <> (type_name <> "') requires a Sensor subclass"))

  abbrev pub taken : String → Option C.Class → Error
  taken type_name existing =
      exception "ValueError"
        ("sensor type '" <> (type_name <> ("' is already registered to " <> name_of existing)))

  -- `register(type_name)(cls)`; where it raises, the registry stays as it was.
  unfoldable pub register : String → C.Class → Registry → Result Registry
  register type_name cls registry =
      let existing = find type_name registry in
      if not (C.is_sensor cls)
      then raised (not_sensor type_name)
      else if is_taken existing cls
      then raised (taken type_name existing)
      else ok (insert type_name cls registry)

  unfoldable pub registered_types : Registry → List String
  registered_types [] = []
  registered_types ((t, c) ∷ rest) = t ∷ registered_types rest

  unfoldable pub known_types : Registry → String
  unfolding sorted join registered_types
  known_types registry =
      let known = join (sorted (registered_types registry)) in
      if is_empty known then "none" else known

  unfoldable pub construct_found : Registry → SensorConfig → Option C.Class → Result C.Instance
  unfolding known_types
  construct_found registry config (some cls) = C.construct cls config
  construct_found registry config none = raised (
      exception "UnknownSensorType" (
        config.source
        <> (": no sensor registered for type '"
            <> (config.kind <> ("' (registered: " <> (known_types registry <> ")"))))))

  unfoldable pub create : Registry → SensorConfig → Result C.Instance
  unfolding construct_found
  create registry config = construct_found registry config (find config.kind registry)

  unfoldable pub create_all : Registry → List SensorConfig → Result (List C.Instance)
  unfolding create
  create_all registry [] = ok []
  create_all registry (config ∷ configs) = do
    sensor ← create registry config
    sensors ← create_all registry configs
    ok (sensor ∷ sensors)
