-- ===== src/Mqtt/Discovery/GeneralTopics.antt =====
-- The discovery data of cmd/mqtt.go: general topics
use phev2mqtt.Mqtt.Discovery.Template.{Entry}

abbrev pub reconnect_wifi : Entry
reconnect_wifi = record {
  topic = "%s/button/%s_reconnect_wifi/config";
  body =
      "{\n\t\t\"name\": \"__NAME__ Restart Wifi connetion\",\n\t\t\"icon\": \"mdi:timer-off\",\n\t\t\"command_topic\": \"~/connection\",\n\t\t\"payload_press\": \"restart\",\n\t\t\"avty_t\": \"~/available\",\n\t\t\"unique_id\": \"__VIN___restart_wifi\",\n\t\t\"device\": {\n\t\t\t\"name\": \"PHEV __VIN__\",\n\t\t\t\"identifiers\": [\"phev-__VIN__\"],\n\t\t\t\"manufacturer\": \"Mitsubishi\",\n\t\t\t\"model\": \"Outlander PHEV\"\n\t\t},\n\t\t\"~\": \"__TOPIC__\"}";
}
