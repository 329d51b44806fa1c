-- ===== src/Channels.antt =====
-- gateway/channels/channel_adapter.go: the adapter of the channels, with its registry. A channel is a
-- plugin: what it answers to each call is data of it here, and an error is its message. Messages and
-- replies are texts; a call of a channel is recorded. The configuration, buttons and media, which the
-- adapter only passes on, are left out.
pub mod Registered
pub mod Messages
mod Tests
use ocg.Base.{
  ℕ, suc, Bool, true, false, List, [], ◌∷◌, ◌++◌, map, Option, none, some, String, if◌then◌else◌,
  ltb, ◌==◌, string_eq,
}
use ocg.Base.Map.{Map, lookup, insert, delete}
use ocg.Base.Int.{ℤ, pos, negsuc}

-- `type` is ChannelType.
pub record ChannelInfo : Type 0 where
  pub name : String
  pub type : String
  pub version : String

pub record SendMessageRequest : Type 0 where
  pub chat_id : ℤ
  pub text : String
  pub thread_id : ℤ

-- Without the timestamp; `error` is what the channel's service said.
pub record SendMessageResponse : Type 0 where
  pub ok : Bool
  pub message_id : ℤ
  pub chat_id : ℤ
  pub error : String

-- What a call returns: a value and a nil error, or an error.
pub data Reply (A : Type 0) : Type 0 where
  sent : A → Reply A
  failed : String → Reply A

pub record ChannelLoader : Type 0 where
  pub channel_info : ChannelInfo
  pub initialize : Option String
  pub start : Option String
  pub stop : Option String
  pub health_check : Option String
  pub send_message : SendMessageRequest → Reply SendMessageResponse

pub data Call : Type 0 where
  initialized : String → Call
  started : String → Call
  stopped : String → Call
  sending : String → SendMessageRequest → Call

abbrev pub ChannelRegistry : Type 0
ChannelRegistry = Map String ChannelInfo

unfoldable pub registry_add : ChannelInfo → ChannelRegistry → ChannelRegistry
unfolding insert
registry_add info r = insert info.type info r

unfoldable pub registry_remove : String → ChannelRegistry → ChannelRegistry
unfolding delete
registry_remove channel_type r = delete channel_type r

unfoldable pub registry_get : String → ChannelRegistry → Option ChannelInfo
unfolding lookup
registry_get channel_type r = lookup channel_type r

pub record ChannelAdapter : Type 0 where
  pub channels : Map String ChannelLoader
  pub registry : ChannelRegistry

unfoldable pub new_channel_adapter : ChannelAdapter
new_channel_adapter = record { channels = []; registry = [] }

pub data AdapterError : Type 0 where
  already_registered : String → AdapterError
  initialize_failed : String → String → AdapterError
  channel_not_found : String → AdapterError
  channel_error : String → AdapterError

-- What an operation returns, the adapter after it, and the calls it made.
pub record Result (A : Type 0) : Type 0 where
  pub answer : A
  pub adapter : ChannelAdapter
  pub calls : List Call

abbrev pub register_initialized :
    ChannelLoader → ChannelAdapter → Option String → Result (Option AdapterError)
register_initialized channel a (some why) = record {
  answer = some (initialize_failed channel.channel_info.type why);
  adapter = a;
  calls = initialized channel.channel_info.type ∷ [];
}
register_initialized channel a none = record {
  answer = none;
  adapter = record {
    channels = insert channel.channel_info.type channel a.channels;
    registry = registry_add channel.channel_info a.registry;
  };
  calls = initialized channel.channel_info.type ∷ [];
}

abbrev pub register_new :
    ChannelLoader → ChannelAdapter → Option ChannelLoader → Result (Option AdapterError)
register_new channel a (some existing) = record {
  answer = some (already_registered channel.channel_info.type);
  adapter = a;
  calls = [];
}
register_new channel a none = register_initialized channel a channel.initialize

unfoldable pub register_channel : ChannelLoader → ChannelAdapter → Result (Option AdapterError)
unfolding lookup insert registry_add
register_channel channel a = register_new channel a (lookup channel.channel_info.type a.channels)

-- An error of `Stop` is only logged.
abbrev pub unregister_found :
    String → ChannelAdapter → Option ChannelLoader → Result (Option AdapterError)
unregister_found channel_type a none = record {
  answer = some (channel_not_found channel_type);
  adapter = a;
  calls = [];
}
unregister_found channel_type a (some channel) = record {
  answer = none;
  adapter = record {
    channels = delete channel_type a.channels;
    registry = registry_remove channel_type a.registry;
  };
  calls = stopped channel_type ∷ [];
}

unfoldable pub unregister_channel : String → ChannelAdapter → Result (Option AdapterError)
unfolding lookup delete registry_remove
unregister_channel channel_type a = unregister_found channel_type a (lookup channel_type a.channels)

abbrev pub error_of : Option String → Option AdapterError
error_of none = none
error_of (some why) = some (channel_error why)

abbrev pub start_found :
    String → ChannelAdapter → Option ChannelLoader → Result (Option AdapterError)
start_found channel_type a none = record {
  answer = some (channel_not_found channel_type);
  adapter = a;
  calls = [];
}
start_found channel_type a (some channel) = record {
  answer = error_of channel.start;
  adapter = a;
  calls = started channel_type ∷ [];
}

unfoldable pub start_channel : String → ChannelAdapter → Result (Option AdapterError)
unfolding lookup
start_channel channel_type a = start_found channel_type a (lookup channel_type a.channels)

abbrev pub keys : Map String ChannelLoader → List String
keys [] = []
keys ((k, c) ∷ m) = k ∷ keys m

unfoldable pub start_all_channels : ChannelAdapter → Result (Option AdapterError)
start_all_channels a = record { answer = none; adapter = a; calls = map started (keys a.channels) }

unfoldable pub stop_all_channels : ChannelAdapter → Result (Option AdapterError)
stop_all_channels a = record {
  answer = none;
  adapter = record a { channels = [] };
  calls = map stopped (keys a.channels);
}

pub data Sent : Type 0 where
  delivered : SendMessageResponse → Sent
  not_sent : AdapterError → Sent

abbrev pub sent_of : Reply SendMessageResponse → Sent
sent_of (sent r) = delivered r
sent_of (failed why) = not_sent (channel_error why)

abbrev pub send_found :
    String → SendMessageRequest → ChannelAdapter → Option ChannelLoader → Result Sent
send_found channel_type req a none = record {
  answer = not_sent (channel_not_found channel_type);
  adapter = a;
  calls = [];
}
send_found channel_type req a (some channel) = record {
  answer = sent_of (channel.send_message req);
  adapter = a;
  calls = sending channel_type req ∷ [];
}

unfoldable pub send_message : String → SendMessageRequest → ChannelAdapter → Result Sent
unfolding lookup
send_message channel_type req a = send_found channel_type req a (lookup channel_type a.channels)

pub record ChannelMessage : Type 0 where
  pub channel : String
  pub chat_id : ℤ
  pub thread_id : ℤ
  pub username : String
  pub text : String

-- The outcome of `ProcessMessage`. The agent is a function of the message, which gives the session
-- (its channel and chat), the prompt of the system and the text.
pub data Processed : Type 0 where
  no_agent : Processed
  agent_failed : String → Processed
  send_failed : AdapterError → Processed
  success : SendMessageResponse → Processed

abbrev pub thread_of : ℤ → ℤ
thread_of (pos n) = pos n
thread_of (negsuc n) = pos 0

abbrev pub processed_of : Sent → Processed
processed_of (delivered r) = success r
processed_of (not_sent e) = send_failed e

abbrev pub process_sent : Result Sent → Result Processed
process_sent r = record { answer = processed_of r.answer; adapter = r.adapter; calls = r.calls }

abbrev pub process_reply : ChannelAdapter → ChannelMessage → Reply String → Result Processed
process_reply a msg (failed why) = record { answer = agent_failed why; adapter = a; calls = [] }
process_reply a msg (sent response) = process_sent (
    send_message msg.channel
      (record { chat_id = msg.chat_id; text = response; thread_id = thread_of msg.thread_id }) a)

unfoldable pub process_message :
    Option (ChannelMessage → Reply String) → ChannelMessage → ChannelAdapter → Result Processed
unfolding send_message
process_message none msg a = record { answer = no_agent; adapter = a; calls = [] }
process_message (some chat) msg a = process_reply a msg (chat msg)

unfoldable pub list_channels : ChannelAdapter → List String
list_channels a = keys a.channels

abbrev pub is_some : Option ChannelLoader → Bool
is_some none = false
is_some (some c) = true

unfoldable pub has_channel : String → ChannelAdapter → Bool
unfolding lookup
has_channel channel_type a = is_some (lookup channel_type a.channels)

abbrev pub info_of : Option ChannelLoader → Option ChannelInfo
info_of none = none
info_of (some c) = some c.channel_info

-- `none` is the error of a channel that is not found.
unfoldable pub get_channel_info : String → ChannelAdapter → Option ChannelInfo
unfolding lookup
get_channel_info channel_type a = info_of (lookup channel_type a.channels)

abbrev pub add_health : String → Option String → Map String String → Map String String
add_health k none m = m
add_health k (some why) m = (k, why) ∷ m

abbrev pub health_of : Map String ChannelLoader → Map String String
health_of [] = []
health_of ((k, c) ∷ m) = add_health k c.health_check (health_of m)

-- The channels that are not healthy, with their errors.
unfoldable pub health_check : ChannelAdapter → Map String String
health_check a = health_of a.channels
