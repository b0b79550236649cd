-- ===== src/Sensors/Registry/Laws.antt =====
-- A type stays with its class, and the sensors are built in the order of their configurations.
use factoryfleet.Base.{
  ◌≡◌, ◌≢◌, ◌↔◌, refl, ap, ◌∙◌, true, false, String, ◌⊎◌, inl, inr, none, some, List, [], ◌∷◌, ◌++◌,
  arith, str_eq, eq_iff, eq_refl, Bool-cases, Option-cases, if◌then◌else◌,
}
use factoryfleet.Config.Types.{SensorConfig}
use factoryfleet.Sensors.Metrics.{Error, Result, ok, raised, ◌>>=◌}
use factoryfleet.Sensors.Registry.{
  Classes, Registry, find, insert, is_taken, register, not_sensor, taken, create, create_all,
}

module _ (C : Classes) where
  find-insert :
      (k type_name : String) (cls : C.Class) (registry : Registry C)
      → find C k (insert C type_name cls registry)
        ≡ (if str_eq type_name k then some cls else find C k registry)
  unfolding find insert
  find-insert k type_name cls [] = refl
  find-insert k type_name cls ((t, c) ∷ rest) =
      ground (
        arith,
        eq_iff type_name k,
        eq_iff t k,
        eq_iff t type_name,
        find-insert k type_name cls rest,
      )

  -- The class is entered under its type, every other type keeps its class, and the type had no other
  -- class before; or the registration is refused, for no sensor or for a type of another class.
  abbrev pub Registers : String → C.Class → Registry C → Result (Registry C) → Type 0
  Registers type_name cls before r =
      ((after : Registry C) × (r ≡ ok after)
        × (find C type_name after ≡ some cls)
        × ((k : String) → k ≢ type_name → find C k after ≡ find C k before)
        × ((find C type_name before ≡ none) ⊎ (find C type_name before ≡ some cls)))
      ⊎ ((e : Error) × (r ≡ raised e)
          × ((C.is_sensor cls ≡ false)
              ⊎ ((existing : C.Class) × (find C type_name before ≡ some existing)
                  × (existing ≢ cls))))

  entered :
      (type_name : String) (cls : C.Class) (registry : Registry C)
      → (find C type_name (insert C type_name cls registry) ≡ some cls)
        × ((k : String)
            → k ≢ type_name
            → find C k (insert C type_name cls registry) ≡ find C k registry)
  entered type_name cls registry = (
    ground (arith, find-insert type_name type_name cls registry, eq_refl type_name),
    λ k distinct.
        ground (arith, find-insert k type_name cls registry, eq_iff type_name k, distinct),
  )

  -- With `is` the identity of classes: `register` enters a Sensor subclass under a type that no other
  -- class has, keeps all other types, and raises in every other case.
  pub register_total :
      ((a b : C.Class) → (C.is a b ≡ true) ↔ (a ≡ b))
      → (type_name : String) (cls : C.Class) (registry : Registry C)
      → Registers type_name cls registry (register C type_name cls registry)
  unfolding register is_taken
  register_total identity type_name cls registry =
      let (here, others) = entered type_name cls registry in
      elim (Bool-cases (C.is_sensor cls)) [
        | inr no_sensor ↦ inr (not_sensor C type_name, rw no_sensor refl, inl no_sensor)
        | inl sensor ↦ elim (Option-cases (find C type_name registry)) [
          | inl free ↦
              inl (insert C type_name cls registry, rw (sensor, free) refl, here, others, inl free)
          | inr (existing, found) ↦ elim (Bool-cases (C.is existing cls)) [
            | inl same ↦ inl (
              insert C type_name cls registry,
              rw (sensor, found, same) refl,
              here,
              others,
              inr (found ∙ ap some ((identity existing cls).0 same)),
            )
            | inr other ↦ inr (
              taken C type_name (some existing),
              rw (sensor, found, other) refl,
              inr (
                existing,
                found,
                λ e. absurd (ground (arith, other, (identity existing cls).1 e)),
              ),
            )
          ]
        ]
      ]

  abbrev pub AreCreated : Registry C → List SensorConfig → List C.Instance → Type 0
  AreCreated registry [] [] = Unit
  AreCreated registry [] (s ∷ sensors) = ⊥
  AreCreated registry (c ∷ configs) [] = ⊥
  AreCreated registry (c ∷ configs) (s ∷ sensors) =
      (create C registry c ≡ ok s) × AreCreated registry configs sensors

  -- All sensors, in order; or the exception of the first configuration that raises one.
  abbrev pub CreatesAll : Registry C → List SensorConfig → Result (List C.Instance) → Type 0
  CreatesAll registry configs (ok sensors) = AreCreated registry configs sensors
  CreatesAll registry configs (raised e) =
      (fine : List SensorConfig) × (bad : SensorConfig) × (rest : List SensorConfig) × (configs
        ≡ fine ++ (bad ∷ rest))
      × ((sensors : List C.Instance) × AreCreated registry fine sensors)
      × (create C registry bad ≡ raised e)

  Result-cases :
      {A : Type 0} (r : Result A) → ((x : A) × (r ≡ ok x)) ⊎ ((e : Error) × (r ≡ raised e))
  Result-cases (ok x) = inl (x, refl)
  Result-cases (raised e) = inr (e, refl)

  CreatesAll-cons :
      (registry : Registry C) (c : SensorConfig) (configs : List SensorConfig) (s : C.Instance)
      (r : Result (List C.Instance))
      → create C registry c ≡ ok s
      → CreatesAll registry configs r
      → CreatesAll registry (c ∷ configs) (do sensors ← r; ok (s ∷ sensors))
  CreatesAll-cons registry c configs s (ok sensors) built rest = (built, rest)
  CreatesAll-cons registry c configs s (raised e) built
        (fine, bad, after, split, (sensors, h), fault) =
      (c ∷ fine, bad, after, ap (λ cs. c ∷ cs) split, (s ∷ sensors, (built, h)), fault)

  -- `create_all` builds one sensor for each configuration, in their order, or raises what the first
  -- configuration raises that cannot be built.
  pub create_all_lem :
      (registry : Registry C) (configs : List SensorConfig)
      → CreatesAll registry configs (create_all C registry configs)
  unfolding create_all
  create_all_lem registry [] = tt
  create_all_lem registry (c ∷ configs) = elim (Result-cases (create C registry c)) [
    | inl (s, built) ↦
        rw built (CreatesAll-cons registry c configs s _ built (create_all_lem registry configs))
    | inr (e, fault) ↦ rw fault ([], c, configs, refl, ([], tt), fault)
  ]
