-- ===== src/Mqtt/Discovery/Lights.antt =====
-- The discovery data of cmd/mqtt.go: lights
use phev2mqtt.Mqtt.Discovery.Template.{Entry}

abbrev pub parkinglights : Entry
parkinglights = record {
  topic = "%s/light/%s_parkinglights/config";
  body =
      "{\n\t\t\"name\": \"__NAME__ Park Lights\",\n\t\t\"icon\": \"mdi:car-parking-lights\",\n\t\t\"state_topic\": \"~/lights/parking\",\n\t\t\"command_topic\": \"~/set/parkinglights\",\n\t\t\"payload_off\": \"off\",\n\t\t\"payload_on\": \"on\",\n\t\t\"avty_t\": \"~/available\",\n\t\t\"unique_id\": \"__VIN___parkinglights\",\n\t\t\"device\": {\n\t\t\t\"name\": \"PHEV __VIN__\",\n\t\t\t\"identifiers\": [\"phev-__VIN__\"],\n\t\t\t\"manufacturer\": \"Mitsubishi\",\n\t\t\t\"model\": \"Outlander PHEV\"\n\t\t},\n\t\t\"~\": \"__TOPIC__\"}";
}

abbrev pub headlights : Entry
headlights = record {
  topic = "%s/light/%s_headlights/config";
  body =
      "{\n\t\t\"name\": \"__NAME__ Head Lights\",\n\t\t\"icon\": \"mdi:car-light-dimmed\",\n\t\t\"state_topic\": \"~/lights/head\",\n\t\t\"command_topic\": \"~/set/headlights\",\n\t\t\"payload_off\": \"off\",\n\t\t\"payload_on\": \"on\",\n\t\t\"avty_t\": \"~/available\",\n\t\t\"unique_id\": \"__VIN___headlights\",\n\t\t\"device\": {\n\t\t\t\"name\": \"PHEV __VIN__\",\n\t\t\t\"identifiers\": [\"phev-__VIN__\"],\n\t\t\t\"manufacturer\": \"Mitsubishi\",\n\t\t\t\"model\": \"Outlander PHEV\"\n\t\t},\n\t\t\"~\": \"__TOPIC__\"}";
}

abbrev pub interiorlights : Entry
interiorlights = record {
  topic = "%s/binary_sensor/%s_interiorlights/config";
  body =
      "{\n\t\t\"device_class\": \"light\",\n\t\t\"name\": \"__NAME__ Interior Lights\",\n\t\t\"icon\": \"mdi:lightbulb\",\n\t\t\"state_topic\": \"~/lights/interior\",\n\t\t\"payload_off\": \"off\",\n\t\t\"payload_on\": \"on\",\n\t\t\"avty_t\": \"~/available\",\n\t\t\"unique_id\": \"__VIN___interiorlights\",\n\t\t\"dev\": {\n\t\t\t\"name\": \"PHEV __VIN__\",\n\t\t\t\"identifiers\": [\"phev-__VIN__\"],\n\t\t\t\"manufacturer\": \"Mitsubishi\",\n\t\t\t\"model\": \"Outlander PHEV\"\n\t\t},\n\t\t\"~\": \"__TOPIC__\"}";
}

abbrev pub hazardlights : Entry
hazardlights = record {
  topic = "%s/binary_sensor/%s_hazardlights/config";
  body =
      "{\n\t\t\"device_class\": \"light\",\n\t\t\"name\": \"__NAME__ Hazard Lights\",\n\t\t\"icon\": \"mdi:hazard-lights\",\n\t\t\"state_topic\": \"~/lights/hazard\",\n\t\t\"payload_off\": \"off\",\n\t\t\"payload_on\": \"on\",\n\t\t\"avty_t\": \"~/available\",\n\t\t\"unique_id\": \"__VIN___hazardlights\",\n\t\t\"dev\": {\n\t\t\t\"name\": \"PHEV __VIN__\",\n\t\t\t\"identifiers\": [\"phev-__VIN__\"],\n\t\t\t\"manufacturer\": \"Mitsubishi\",\n\t\t\t\"model\": \"Outlander PHEV\"\n\t\t},\n\t\t\"~\": \"__TOPIC__\"}";
}
