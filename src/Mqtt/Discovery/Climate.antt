-- ===== src/Mqtt/Discovery/Climate.antt =====
-- The discovery data of cmd/mqtt.go: climate
use phev2mqtt.Mqtt.Discovery.Template.{Entry}

abbrev pub climate_heat : Entry
climate_heat = record {
  topic = "%s/switch/%s_climate_heat/config";
  body =
      "{\n\t\t\"name\": \"__NAME__ Heat\",\n\t\t\"icon\": \"mdi:weather-sunny\",\n\t\t\"state_topic\": \"~/climate/heat\",\n\t\t\"command_topic\": \"~/set/climate/heat\",\n\t\t\"payload_off\": \"off\",\n\t\t\"payload_on\": \"on\",\n\t\t\"avty_t\": \"~/available\",\n\t\t\"unique_id\": \"__VIN___climate_heat\",\n\t\t\"device\": {\n\t\t\t\"name\": \"PHEV __VIN__\",\n\t\t\t\"identifiers\": [\"phev-__VIN__\"],\n\t\t\t\"manufacturer\": \"Mitsubishi\",\n\t\t\t\"model\": \"Outlander PHEV\"\n\t\t},\n\t\t\"~\": \"__TOPIC__\"}";
}

abbrev pub climate_cool : Entry
climate_cool = record {
  topic = "%s/switch/%s_climate_cool/config";
  body =
      "{\n\t\t\"name\": \"__NAME__ cool\",\n\t\t\"icon\": \"mdi:air-conditioner\",\n\t\t\"state_topic\": \"~/climate/cool\",\n\t\t\"command_topic\": \"~/set/climate/cool\",\n\t\t\"payload_off\": \"off\",\n\t\t\"payload_on\": \"on\",\n\t\t\"avty_t\": \"~/available\",\n\t\t\"unique_id\": \"__VIN___climate_cool\",\n\t\t\"device\": {\n\t\t\t\"name\": \"PHEV __VIN__\",\n\t\t\t\"identifiers\": [\"phev-__VIN__\"],\n\t\t\t\"manufacturer\": \"Mitsubishi\",\n\t\t\t\"model\": \"Outlander PHEV\"\n\t\t},\n\t\t\"~\": \"__TOPIC__\"}";
}

abbrev pub climate_windscreen : Entry
climate_windscreen = record {
  topic = "%s/switch/%s_climate_windscreen/config";
  body =
      "{\n\t\t\"name\": \"__NAME__ windscreen\",\n\t\t\"state_topic\": \"~/climate/windscreen\",\n\t\t\"command_topic\": \"~/set/climate/windscreen\",\n\t\t\"payload_off\": \"off\",\n\t\t\"payload_on\": \"on\",\n\t\t\"avty_t\": \"~/available\",\n\t\t\"unique_id\": \"__VIN___climate_windscreen\",\n\t\t\"device\": {\n\t\t\t\"name\": \"PHEV __VIN__\",\n\t\t\t\"identifiers\": [\"phev-__VIN__\"],\n\t\t\t\"manufacturer\": \"Mitsubishi\",\n\t\t\t\"model\": \"Outlander PHEV\"\n\t\t},\n\t\t\"icon\": \"mdi:car-defrost-front\",\n\t\t\"~\": \"__TOPIC__\"}";
}

abbrev pub climate_on : Entry
climate_on = record {
  topic = "%s/select/%s_climate_on/config";
  body =
      "{\n\t\t\t\t\"name\": \"__NAME__ climate state\",\n\t\t\t\t\"state_topic\": \"~/climate/mode\",\n\t\t\t\t\"command_topic\": \"~/set/climate/mode\",\n\t\t\t\t\"options\": [ \"off\", \"heat\", \"cool\", \"windscreen\"],\n\t\t\t\t\"avty_t\": \"~/available\",\n\t\t\t\t\"unique_id\": \"__VIN___climate_on\",\n\t\t\"device\": {\n\t\t\t\"name\": \"PHEV __VIN__\",\n\t\t\t\"identifiers\": [\"phev-__VIN__\"],\n\t\t\t\"manufacturer\": \"Mitsubishi\",\n\t\t\t\"model\": \"Outlander PHEV\"\n\t\t},\n\t\t\t\t\"icon\": \"mdi:car-seat-heater\",\n\t\t\t\t\"~\": \"__TOPIC__\"}";
}
