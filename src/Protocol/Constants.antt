-- ===== src/Protocol/Constants.antt =====
-- The message types, the acknowledgement flags and the register numbers of protocol/message.go.
use phev2mqtt.Base.{ℕ}

abbrev pub cmd_out_ping_req : ℕ
cmd_out_ping_req = 0xf3

abbrev pub cmd_in_ping_resp : ℕ
cmd_in_ping_resp = 0x3f

abbrev pub cmd_out_send : ℕ
cmd_out_send = 0xf6

abbrev pub cmd_in_resp : ℕ
cmd_in_resp = 0x6f

abbrev pub cmd_in_my24_start_req : ℕ
cmd_in_my24_start_req = 0x6e

abbrev pub cmd_out_my24_start_resp : ℕ
cmd_out_my24_start_resp = 0xe6

abbrev pub cmd_in_my18_start_req : ℕ
cmd_in_my18_start_req = 0x5e

abbrev pub cmd_out_my18_start_resp : ℕ
cmd_out_my18_start_resp = 0xe5

abbrev pub cmd_in_my14_start_req : ℕ
cmd_in_my14_start_req = 0x4e

abbrev pub cmd_out_my14_start_resp : ℕ
cmd_out_my14_start_resp = 0xe4

abbrev pub cmd_in_bad_encoding : ℕ
cmd_in_bad_encoding = 0xbb

abbrev pub cmd_in_start_resp : ℕ
cmd_in_start_resp = 0x2f

abbrev pub cmd_out_start_send_my18 : ℕ
cmd_out_start_send_my18 = 0xf2

-- The constants Request and Ack.
abbrev pub request_flag : ℕ
request_flag = 0x0

abbrev pub ack_flag : ℕ
ack_flag = 0x1

abbrev pub battery_warning_register : ℕ
battery_warning_register = 0x02

abbrev pub set_ac_mode_register_my14 : ℕ
set_ac_mode_register_my14 = 0x02

abbrev pub set_ac_enabled_register_my14 : ℕ
set_ac_enabled_register_my14 = 0x04

abbrev pub pre_ac_state_register : ℕ
pre_ac_state_register = 0x10

abbrev pub time_register : ℕ
time_register = 0x12

abbrev pub set_ack_pre_ac_term_register : ℕ
set_ack_pre_ac_term_register = 0x13

abbrev pub vin_register : ℕ
vin_register = 0x15

abbrev pub settings_register : ℕ
settings_register = 0x16

abbrev pub ac_oper_status_register : ℕ
ac_oper_status_register = 0x1a

abbrev pub set_ac_mode_register_my18 : ℕ
set_ac_mode_register_my18 = 0x1b

abbrev pub ac_mode_register : ℕ
ac_mode_register = 0x1c

abbrev pub battery_level_register : ℕ
battery_level_register = 0x1d

abbrev pub charge_plug_register : ℕ
charge_plug_register = 0x1e

abbrev pub charge_status_register : ℕ
charge_status_register = 0x1f

abbrev pub light_status_register : ℕ
light_status_register = 0x23

abbrev pub door_status_register : ℕ
door_status_register = 0x24

abbrev pub wifi_ssid_register : ℕ
wifi_ssid_register = 0x28

abbrev pub ecu_version_register : ℕ
ecu_version_register = 0xc0
