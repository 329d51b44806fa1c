-- ===== src/Channels/Tests.antt =====
-- The adapter with one channel.
use ocg.Base.{◌≡◌, refl, false, [], ◌∷◌, none, some, String, ◌⊎◌, string_eq}
use ocg.Base.Int.{pos, negsuc}
use ocg.Base.Map.{lookup, insert}
use ocg.Channels.{
  already_registered, unregister_channel, ChannelLoader, ChannelAdapter, ChannelMessage,
  SendMessageResponse, Reply, sent, failed, started, agent_failed, success, new_channel_adapter,
  register_channel, stop_all_channels, start_all_channels, has_channel, get_channel_info,
  registry_get, process_message, send_message,
}
use ocg.Channels.Registered.{
  Agrees, registers, Reaches, here, then_step, reaches-Agrees, register_channel_once,
  stop_all_channels-stale,
}
use ocg.Channels.Messages.{Answered, process_message-Answered}

-- Telegram refuses, and the channel returns no error.
abbrev refusal : SendMessageResponse
refusal = record { ok = false; message_id = pos 0; chat_id = pos 7; error = "chat not found" }

abbrev telegram : ChannelLoader
telegram = record {
  channel_info = record { name = "Telegram"; type = "telegram"; version = "1.0" };
  initialize = none;
  start = some "no token";
  stop = none;
  health_check = none;
  send_message = λ req. sent refusal;
}

abbrev with_telegram : ChannelAdapter
with_telegram = (register_channel telegram new_channel_adapter).adapter

abbrev telegram_added : Reaches new_channel_adapter with_telegram
telegram_added = then_step (here new_channel_adapter) (registers telegram new_channel_adapter)

abbrev hello : ChannelMessage
hello = record {
  channel = "telegram";
  chat_id = pos 7;
  thread_id = negsuc 0;
  username = "ann";
  text = "hello";
}

abbrev echo : ChannelMessage → Reply String
echo msg = sent msg.text

start_all : (start_all_channels with_telegram).calls ≡ started "telegram" ∷ []
unfolding start_all_channels register_channel new_channel_adapter lookup insert
start_all = refl

reply_sent : (process_message (some echo) hello with_telegram).answer ≡ success refusal
unfolding process_message send_message register_channel new_channel_adapter lookup insert
reply_sent = refl

reaches-Agrees_example : Agrees with_telegram
reaches-Agrees_example = reaches-Agrees with_telegram telegram_added

stop_all_channels-stale_example :
    let b = (stop_all_channels with_telegram).adapter in
    (has_channel "telegram" b ≡ false)
    × (registry_get "telegram" b.registry ≡ some telegram.channel_info)
unfolding get_channel_info register_channel new_channel_adapter lookup insert
stop_all_channels-stale_example =
    stop_all_channels-stale with_telegram "telegram" telegram.channel_info telegram_added refl

process_message-Answered_example :
    let r = process_message (some echo) hello with_telegram in
    (r.adapter ≡ with_telegram)
    × (((why : String) × (echo hello ≡ failed why) × (r.answer ≡ agent_failed why) × (r.calls ≡ []))
        ⊎ ((response : String) × (echo hello ≡ sent response)
            × Answered hello response with_telegram r))
process_message-Answered_example = process_message-Answered echo hello with_telegram

-- Another implementation of the same type.
abbrev second_telegram : ChannelLoader
second_telegram = record telegram { initialize = some "busy" }

register_channel_once_example :
    (get_channel_info "telegram" with_telegram ≡ some telegram.channel_info)
    × (register_channel second_telegram with_telegram ≡ record {
      answer = some (already_registered "telegram");
      adapter = with_telegram;
      calls = [];
    })
    × (get_channel_info "telegram" (unregister_channel "telegram" with_telegram).adapter ≡ none)
    × (registry_get "telegram" (unregister_channel "telegram" with_telegram).adapter.registry
        ≡ none)
unfolding has_channel new_channel_adapter lookup
register_channel_once_example =
    register_channel_once telegram second_telegram new_channel_adapter refl refl refl
