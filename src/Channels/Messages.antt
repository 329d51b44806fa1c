-- ===== src/Channels/Messages.antt =====
-- The way of a message through the adapter.
use ocg.Base.{◌≡◌, refl, ap, ◌⊎◌, inl, inr, [], ◌∷◌, Option, none, some, String, string_eq}
use ocg.Base.Map.{lookup}
use ocg.Channels.{
  ChannelLoader, ChannelAdapter, ChannelMessage, SendMessageRequest, SendMessageResponse, Reply,
  sent, failed, sending, channel_not_found, channel_error, Result, Processed, agent_failed,
  send_failed, success, thread_of, process_message, process_reply, process_sent, sent_of,
  send_message, send_found,
}

-- The request for a response to a message.
abbrev pub request_of : ChannelMessage → String → SendMessageRequest
request_of msg response = record {
  chat_id = msg.chat_id;
  text = response;
  thread_id = thread_of msg.thread_id;
}

-- The channel is asked to send this response, or there is no such channel and nothing is sent.
abbrev pub Answered : ChannelMessage → String → ChannelAdapter → Result Processed → Type 0
Answered msg response a r =
    ((lookup msg.channel a.channels ≡ none)
      × (r.calls ≡ [])
      × (r.answer ≡ send_failed (channel_not_found msg.channel)))
    ⊎ ((c : ChannelLoader) × (lookup msg.channel a.channels ≡ some c)
        × (r.calls ≡ sending msg.channel (request_of msg response) ∷ [])
        × (((why : String) × (c.send_message (request_of msg response) ≡ failed why)
              × (r.answer ≡ send_failed (channel_error why)))
            ⊎ ((resp : SendMessageResponse) × (c.send_message (request_of msg response) ≡ sent resp)
                × (r.answer ≡ success resp))))

-- `ProcessMessage` with an agent leaves the adapter as it is. Where the agent fails, nothing is sent;
-- else its response goes to the message's own channel, chat and thread, exactly once if there is such
-- a channel. An error of the channel is passed on; with none the answer is a success that carries the
-- channel's reply as it is, also one whose own flag `ok` is false.
pub process_message-Answered :
    (chat : ChannelMessage → Reply String) (msg : ChannelMessage) (a : ChannelAdapter)
    → let r = process_message (some chat) msg a in
      (r.adapter ≡ a)
      × (((why : String) × (chat msg ≡ failed why) × (r.answer ≡ agent_failed why) × (r.calls ≡ []))
          ⊎ ((response : String) × (chat msg ≡ sent response) × Answered msg response a r))
unfolding process_message send_message
process_message-Answered chat msg a = replied (chat msg) refl
  where
    Whole : Result Processed → Type 0
    Whole r =
        (r.adapter ≡ a)
        × (((why : String) × (chat msg ≡ failed why)
              × (r.answer ≡ agent_failed why)
              × (r.calls ≡ []))
            ⊎ ((response : String) × (chat msg ≡ sent response) × Answered msg response a r))

    took :
        (response : String) (c : ChannelLoader) (o : Reply SendMessageResponse)
        → chat msg ≡ sent response
        → lookup msg.channel a.channels ≡ some c
        → c.send_message (request_of msg response) ≡ o
        → Whole (process_sent (send_found msg.channel (request_of msg response) a (some c)))
    took response c (failed why) e l q = (
      refl,
      inr (
        response,
        e,
        inr (
          c,
          l,
          refl,
          inl (
            why,
            q,
            ap (λ o. (process_sent (record { answer = sent_of o; adapter = a; calls = [] })).answer)
                q,
          ),
        ),
      ),
    )
    took response c (sent resp) e l q = (
      refl,
      inr (
        response,
        e,
        inr (
          c,
          l,
          refl,
          inr (
            resp,
            q,
            ap (λ o. (process_sent (record { answer = sent_of o; adapter = a; calls = [] })).answer)
                q,
          ),
        ),
      ),
    )

    found :
        (response : String) (o : Option ChannelLoader)
        → chat msg ≡ sent response
        → lookup msg.channel a.channels ≡ o
        → Whole (process_sent (send_found msg.channel (request_of msg response) a o))
    found response none e l = (refl, inr (response, e, inl (l, refl, refl)))
    found response (some c) e l =
        took response c (c.send_message (request_of msg response)) e l refl

    replied : (o : Reply String) → chat msg ≡ o → Whole (process_reply a msg o)
    replied (failed why) e = (refl, inl (why, e, refl, refl))
    replied (sent response) e = found response (lookup msg.channel a.channels) e refl
