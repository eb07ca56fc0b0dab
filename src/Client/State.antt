-- ===== src/Client/State.antt =====
-- Client of client/client.go: its state, New, the listener table, and `manage`, which answers the
-- control messages. A listener pointer is a number; `next_pointer` is not in use yet. `sent` holds
-- all that was put on the channel Send, and `started` counts what was put on the channel started,
-- with no wait for room in either: the waits of `manage` are in Client/Waits.
pub mod Laws
use phev2mqtt.Base.{
  ℕ, ◌+◌, Bool, true, false, List, [], ◌∷◌, ◌++◌, ◌==◌, ◌&&◌, if◌then◌else◌, Outcome, ok, err,
  panic, ◌>>=◌, codes,
}
use phev2mqtt.Protocol.SecurityKey.{SecurityKey, new_key}
use phev2mqtt.Protocol.Settings.{Settings, from_register}
use phev2mqtt.Protocol.Constants.{
  cmd_in_resp, cmd_in_start_resp, cmd_in_my24_start_req, cmd_out_my24_start_resp,
  cmd_in_my18_start_req, cmd_out_my18_start_resp, cmd_in_my14_start_req, cmd_out_my14_start_resp,
  request_flag, ack_flag, settings_register,
}
use phev2mqtt.Protocol.Types.{PhevMessage, empty_message, new_ping_request_message}
use phev2mqtt.Client.Listener.{Listener}
use phev2mqtt.Client.Listener

pub data ModelYear : Type 0 where
  unknown my14 my18 my24 : ModelYear

pub record Client : Type 0 where
  pub recv : List PhevMessage
  pub recv_closed : Bool
  pub sent : List PhevMessage
  pub settings : Settings
  pub listeners : List (ℕ × Listener)
  pub next_pointer : ℕ
  pub address : List ℕ
  pub started : ℕ
  pub key : SecurityKey
  pub model_year : ModelYear
  pub closed : Bool

abbrev default_address : List ℕ
default_address = codes "192.168.8.46:8080"

-- Options run in order over the default client.
apply_options : List (Client → Client) → Client → Client
apply_options [] c = c
apply_options (o ∷ os) c = apply_options os (o c)

unfoldable pub address_option : List ℕ → Client → Client
address_option address c = record c { address = address }

unfoldable pub new : List (Client → Client) → Client
unfolding apply_options
new opts = apply_options opts (record {
  recv = [];
  recv_closed = false;
  sent = [];
  settings = record { settings = [] };
  listeners = [];
  next_pointer = 0;
  address = default_address;
  started = 0;
  key = new_key;
  model_year = unknown;
  closed = false;
})

-- The pointer of the new listener, and the client.
unfoldable pub add_listener : Client → ℕ × Client
add_listener c = (
  c.next_pointer,
  record c {
    listeners = c.listeners ++ ((c.next_pointer, Listener.start) ∷ []);
    next_pointer = c.next_pointer + 1;
  },
)

unfoldable pub drop_pointer : ℕ → List (ℕ × Listener) → List (ℕ × Listener)
drop_pointer l [] = []
drop_pointer l ((p, lis) ∷ ls) = if p == l then drop_pointer l ls else (p, lis) ∷ drop_pointer l ls

unfoldable pub remove_listener : ℕ → Client → Client
unfolding drop_pointer
remove_listener l c = record c { listeners = drop_pointer l c.listeners }

-- A message put on the channel Send.
abbrev pub put : PhevMessage → Client → Client
put m c = record c { sent = c.sent ++ (m ∷ []) }

-- The reply to a start request.
abbrev pub start_response : ℕ → PhevMessage → PhevMessage
start_response typ m = record empty_message {
  typ = typ;
  register = 0x1;
  ack = ack_flag;
  xor = m.xor;
  data_bytes = 0x0 ∷ [];
}

abbrev answer_start : ModelYear → ℕ → PhevMessage → Client → Client
answer_start year typ m c = record c {
  model_year = year;
  sent = c.sent ++ (start_response typ m ∷ []);
  started = c.started + 1;
}

-- The error of FromRegister is dropped.
abbrev keep_settings : Settings → Outcome Settings → Settings
keep_settings s (ok t) = t
keep_settings s err = s
keep_settings s panic = s

-- One message in the loop of `manage`.
unfoldable pub manage : PhevMessage → Client → Client
unfolding new_ping_request_message
manage m c =
    if m.typ == cmd_in_resp
    then (if m.ack == request_flag && m.register == settings_register
        then record c {
          settings = keep_settings c.settings (from_register c.settings m.data_bytes);
        }
        else c)
    else if m.typ == cmd_in_start_resp
    then put (new_ping_request_message 0xa) c
    else if m.typ == cmd_in_my24_start_req
    then answer_start my24 cmd_out_my24_start_resp m c
    else if m.typ == cmd_in_my18_start_req
    then answer_start my18 cmd_out_my18_start_resp m c
    else if m.typ == cmd_in_my14_start_req
    then answer_start my14 cmd_out_my14_start_resp m c
    else c
