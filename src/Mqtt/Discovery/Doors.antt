-- ===== src/Mqtt/Discovery/Doors.antt =====
-- The discovery data of cmd/mqtt.go: doors
use phev2mqtt.Mqtt.Discovery.Template.{Entry}

abbrev pub door_locked : Entry
door_locked = record {
  topic = "%s/binary_sensor/%s_door_locked/config";
  body =
      "{\n\t\t\"device_class\": \"lock\",\n\t\t\"name\": \"__NAME__ Locked\",\n\t\t\"state_topic\": \"~/door/locked\",\n\t\t\"payload_off\": \"closed\",\n\t\t\"payload_on\": \"open\",\n\t\t\"avty_t\": \"~/available\",\n\t\t\"unique_id\": \"__VIN___door_locked\",\n\t\t\"device\": {\n\t\t\t\"name\": \"PHEV __VIN__\",\n\t\t\t\"identifiers\": [\"phev-__VIN__\"],\n\t\t\t\"manufacturer\": \"Mitsubishi\",\n\t\t\t\"model\": \"Outlander PHEV\"},\n\t\t\"~\": \"__TOPIC__\"}";
}

abbrev pub door_bonnet : Entry
door_bonnet = record {
  topic = "%s/binary_sensor/%s_door_bonnet/config";
  body =
      "{\n\t\t\"device_class\": \"door\",\n\t\t\"name\": \"__NAME__ Bonnet\",\n\t\t\"state_topic\": \"~/door/bonnet\",\n\t\t\"payload_off\": \"closed\",\n\t\t\"payload_on\": \"open\",\n\t\t\"avty_t\": \"~/available\",\n\t\t\"unique_id\": \"__VIN___door_bonnet\",\n\t\t\"device\": {\n\t\t\t\"name\": \"PHEV __VIN__\",\n\t\t\t\"identifiers\": [\"phev-__VIN__\"],\n\t\t\t\"manufacturer\": \"Mitsubishi\",\n\t\t\t\"model\": \"Outlander PHEV\"},\n\t\t\"~\": \"__TOPIC__\"}";
}

abbrev pub door_boot : Entry
door_boot = record {
  topic = "%s/binary_sensor/%s_door_boot/config";
  body =
      "{\n\t\t\"device_class\": \"door\",\n\t\t\"name\": \"__NAME__ Boot\",\n\t\t\"state_topic\": \"~/door/boot\",\n\t\t\"payload_off\": \"closed\",\n\t\t\"payload_on\": \"open\",\n\t\t\"avty_t\": \"~/available\",\n\t\t\"unique_id\": \"__VIN___door_boot\",\n\t\t\"device\": {\n\t\t\t\"name\": \"PHEV __VIN__\",\n\t\t\t\"identifiers\": [\"phev-__VIN__\"],\n\t\t\t\"manufacturer\": \"Mitsubishi\",\n\t\t\t\"model\": \"Outlander PHEV\"\n\t\t},\n\t\t\"~\": \"__TOPIC__\"}";
}

abbrev pub door_front_passenger : Entry
door_front_passenger = record {
  topic = "%s/binary_sensor/%s_door_front_passenger/config";
  body =
      "{\n\t\t\"device_class\": \"door\",\n\t\t\"name\": \"__NAME__ Front Passenger Door\",\n\t\t\"state_topic\": \"~/door/front_passenger\",\n\t\t\"payload_off\": \"closed\",\n\t\t\"payload_on\": \"open\",\n\t\t\"avty_t\": \"~/available\",\n\t\t\"unique_id\": \"__VIN___door_front_passenger\",\n\t\t\"device\": {\n\t\t\t\"name\": \"PHEV __VIN__\",\n\t\t\t\"identifiers\": [\"phev-__VIN__\"],\n\t\t\t\"manufacturer\": \"Mitsubishi\",\n\t\t\t\"model\": \"Outlander PHEV\"\n\t\t},\n\t\t\"~\": \"__TOPIC__\"}";
}

abbrev pub door_driver : Entry
door_driver = record {
  topic = "%s/binary_sensor/%s_door_driver/config";
  body =
      "{\n\t\t\"device_class\": \"door\",\n\t\t\"name\": \"__NAME__ Driver Door\",\n\t\t\"state_topic\": \"~/door/driver\",\n\t\t\"payload_off\": \"closed\",\n\t\t\"payload_on\": \"open\",\n\t\t\"avty_t\": \"~/available\",\n\t\t\"unique_id\": \"__VIN___door_driver\",\n\t\t\"device\": {\n\t\t\t\"name\": \"PHEV __VIN__\",\n\t\t\t\"identifiers\": [\"phev-__VIN__\"],\n\t\t\t\"manufacturer\": \"Mitsubishi\",\n\t\t\t\"model\": \"Outlander PHEV\"\n\t\t},\n\t\t\"~\": \"__TOPIC__\"}";
}

abbrev pub door_rear_left : Entry
door_rear_left = record {
  topic = "%s/binary_sensor/%s_door_rear_left/config";
  body =
      "{\n\t\t\"device_class\": \"door\",\n\t\t\"name\": \"__NAME__ Rear Left Door\",\n\t\t\"state_topic\": \"~/door/rear_left\",\n\t\t\"payload_off\": \"closed\",\n\t\t\"payload_on\": \"open\",\n\t\t\"avty_t\": \"~/available\",\n\t\t\"unique_id\": \"__VIN___door_rear_left\",\n\t\t\"device\": {\n\t\t\t\"name\": \"PHEV __VIN__\",\n\t\t\t\"identifiers\": [\"phev-__VIN__\"],\n\t\t\t\"manufacturer\": \"Mitsubishi\",\n\t\t\t\"model\": \"Outlander PHEV\"\n\t\t},\n\t\t\"~\": \"__TOPIC__\"}";
}

abbrev pub door_rear_right : Entry
door_rear_right = record {
  topic = "%s/binary_sensor/%s_door_rear_right/config";
  body =
      "{\n\t\t\"device_class\": \"door\",\n\t\t\"name\": \"__NAME__ Rear Right Door\",\n\t\t\"state_topic\": \"~/door/rear_right\",\n\t\t\"payload_off\": \"closed\",\n\t\t\"payload_on\": \"open\",\n\t\t\"avty_t\": \"~/available\",\n\t\t\"unique_id\": \"__VIN___door_rear_right\",\n\t\t\"device\": {\n\t\t\t\"name\": \"PHEV __VIN__\",\n\t\t\t\"identifiers\": [\"phev-__VIN__\"],\n\t\t\t\"manufacturer\": \"Mitsubishi\",\n\t\t\t\"model\": \"Outlander PHEV\"\n\t\t},\n\t\t\"~\": \"__TOPIC__\"}";
}
