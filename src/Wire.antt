-- ===== src/Wire.antt =====
-- agent/factoryfleet_agent/wire.py: topics and payloads.
pub mod Shape
pub mod Conforms
pub mod Topics
use factoryfleet.Base.{String, ◌<>◌, List, [], ◌∷◌}
use factoryfleet.Config.Types.{AssetIdentity, topic_prefix}
use factoryfleet.Json.{str, array, object, Items, nil, cons, Fields, end, field, put}
use factoryfleet.Sensors.Reading.{Reading, to_payload}
use factoryfleet.Timeutil.{Datetime, iso}

unfoldable pub telemetry_topic : AssetIdentity → String
telemetry_topic identity = topic_prefix identity <> "/telemetry"

unfoldable pub registration_topic : AssetIdentity → String
registration_topic identity = topic_prefix identity <> "/registration"

unfoldable pub reading_items : List Reading → Items
reading_items [] = nil
reading_items (r ∷ rs) = cons (object (to_payload r)) (reading_items rs)

unfoldable pub telemetry_batch : AssetIdentity → List Reading → Datetime → Fields
telemetry_batch identity readings batched_at = field "assetId" (str identity.asset_id) (
    field "siteId" (str identity.site_id) (
      field "batchedAt" (str (iso batched_at))
        (field "readings" (array (reading_items readings)) end)))

unfoldable pub text_items : List String → Items
text_items [] = nil
text_items (s ∷ ss) = cons (str s) (text_items ss)

unfoldable pub registration : AssetIdentity → List String → String → Datetime → Fields
registration identity sensor_ids agent_version declared_at =
    field "assetId" (str identity.asset_id) (
      field "siteId" (str identity.site_id) (
        field "machineType" (str identity.machine_type) (
          field "firmwareVersion" (str identity.firmware_version) (
            field "agentVersion" (str agent_version) (
              field "sensors" (array (text_items sensor_ids))
                (field "declaredAt" (str (iso declared_at)) end))))))

unfoldable pub stamp_sent : Fields → Datetime → Fields
stamp_sent payload sent_at = put "sentAt" (str (iso sent_at)) payload
