-- ===== src/Mqtt/Discovery/BatteryAndCharging.antt =====
-- The discovery data of cmd/mqtt.go: battery and charging
use phev2mqtt.Mqtt.Discovery.Template.{Entry}

abbrev pub battery_level : Entry
battery_level = record {
  topic = "%s/sensor/%s_battery_level/config";
  body =
      "{\n\t\t\"device_class\": \"battery\",\n\t\t\"name\": \"__NAME__ Battery\",\n\t\t\"state_topic\": \"~/battery/level\",\n\t\t\"state_class\": \"measurement\",\n\t\t\"unit_of_measurement\": \"%\",\n\t\t\"avty_t\": \"~/available\",\n\t\t\"unique_id\": \"__VIN___battery_level\",\n\t\t\"device\": {\n\t\t\t\"name\": \"PHEV __VIN__\",\n\t\t\t\"identifiers\": [\"phev-__VIN__\"],\n\t\t\t\"manufacturer\": \"Mitsubishi\",\n\t\t\t\"model\": \"Outlander PHEV\"\n\t\t},\n\t\t\"~\": \"__TOPIC__\"}";
}

abbrev pub battery_charge_remaining : Entry
battery_charge_remaining = record {
  topic = "%s/sensor/%s_battery_charge_remaining/config";
  body =
      "{\n\t\t\"name\": \"__NAME__ Charge Remaining\",\n\t\t\"state_topic\": \"~/charge/remaining\",\n\t\t\"unit_of_measurement\": \"min\",\n\t\t\"avty_t\": \"~/available\",\n\t\t\"unique_id\": \"__VIN___battery_charge_remaining\",\n\t\t\"device\": {\n\t\t\t\"name\": \"PHEV __VIN__\",\n\t\t\t\"identifiers\": [\"phev-__VIN__\"],\n\t\t\t\"manufacturer\": \"Mitsubishi\",\n\t\t\t\"model\": \"Outlander PHEV\"\n\t\t},\n\t\t\"~\": \"__TOPIC__\"}";
}

abbrev pub charger_connected : Entry
charger_connected = record {
  topic = "%s/binary_sensor/%s_charger_connected/config";
  body =
      "{\n\t\t\"device_class\": \"plug\",\n\t\t\"name\": \"__NAME__ Charger Connected\",\n\t\t\"state_topic\": \"~/charge/plug\",\n\t\t\"payload_on\": \"connected\",\n\t\t\"payload_off\": \"unplugged\",\n\t\t\"avty_t\": \"~/available\",\n\t\t\"unique_id\": \"__VIN___charger_connected\",\n\t\t\"device\": {\n\t\t\t\"name\": \"PHEV __VIN__\",\n\t\t\t\"identifiers\": [\"phev-__VIN__\"],\n\t\t\t\"manufacturer\": \"Mitsubishi\",\n\t\t\t\"model\": \"Outlander PHEV\"\n\t\t},\n\t\t\"~\": \"__TOPIC__\"}";
}

abbrev pub battery_charging : Entry
battery_charging = record {
  topic = "%s/binary_sensor/%s_battery_charging/config";
  body =
      "{\n\t\t\"device_class\": \"battery_charging\",\n\t\t\"name\": \"__NAME__ Charging\",\n\t\t\"state_topic\": \"~/charge/charging\",\n\t\t\"payload_on\": \"on\",\n\t\t\"payload_off\": \"off\",\n\t\t\"avty_t\": \"~/available\",\n\t\t\"unique_id\": \"__VIN___battery_charging\",\n\t\t\"device\": {\n\t\t\t\"name\": \"PHEV __VIN__\",\n\t\t\t\"identifiers\": [\"phev-__VIN__\"],\n\t\t\t\"manufacturer\": \"Mitsubishi\",\n\t\t\t\"model\": \"Outlander PHEV\"\n\t\t},\n\t\t\"~\": \"__TOPIC__\"}";
}

abbrev pub cancel_charge_timer : Entry
cancel_charge_timer = record {
  topic = "%s/switch/%s_cancel_charge_timer/config";
  body =
      "{\n\t\t\"name\": \"__NAME__ Disable Charge Timer\",\n\t\t\"icon\": \"mdi:timer-off\",\n\t\t\"state_topic\": \"~/battery/charging\",\n\t\t\"command_topic\": \"~/set/cancelchargetimer\",\n\t\t\"avty_t\": \"~/available\",\n\t\t\"unique_id\": \"__VIN___cancel_charge_timer\",\n\t\t\"device\": {\n\t\t\t\"name\": \"PHEV __VIN__\",\n\t\t\t\"identifiers\": [\"phev-__VIN__\"],\n\t\t\t\"manufacturer\": \"Mitsubishi\",\n\t\t\t\"model\": \"Outlander PHEV\"\n\t\t},\n\t\t\"~\": \"__TOPIC__\"}";
}
