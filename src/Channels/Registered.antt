-- ===== src/Channels/Registered.antt =====
-- That the channels and the registry agree, and where they stop to.
use ocg.Base.{
  ◌≡◌, refl, sym, ap, ◌∙◌, subst, inl, inr, Bool, true, false, [], Option, none, some, String,
  if◌then◌else◌, ◌==◌, string_eq, Option-cases,
}
use ocg.Base.Map.{
  lookup, insert, lookup-insert, lookup-delete, lookup-insert_self, lookup-delete_self,
}
use ocg.Channels.{
  ChannelInfo, ChannelLoader, registry_add, registry_remove, registry_get, ChannelAdapter,
  new_channel_adapter, AdapterError, already_registered, Result, register_initialized, register_new,
  register_channel, unregister_found, unregister_channel, stop_all_channels, start_all_channels,
  start_channel, start_found, has_channel, is_some, info_of, get_channel_info,
}

-- The registry has the information of each channel under its type, and nothing else.
abbrev pub Agrees : ChannelAdapter → Type 0
Agrees a = (k : String) → registry_get k a.registry ≡ get_channel_info k a

registered :
    (c : ChannelLoader) (a : ChannelAdapter) (o : Option ChannelLoader)
    → Agrees a
    → Agrees (register_new c a o).adapter
unfolding registry_add registry_get get_channel_info
registered c a (some existing) agrees = agrees
registered c a none agrees = initialized c.initialize
  where
    info :
        (b : Bool) (o : Option ChannelLoader)
        → (if b then some c.channel_info else info_of o) ≡ info_of (if b then some c else o)
    info true o = refl
    info false o = refl

    initialized : (o : Option String) → Agrees (register_initialized c a o).adapter
    initialized (some why) = agrees
    initialized none = λ k.
        let t = c.channel_info.type in
        lookup-insert t k c.channel_info a.registry
        ∙ ap (λ o. if t == k then some c.channel_info else o) (agrees k)
        ∙ info (t == k) (lookup k a.channels)
        ∙ ap info_of (sym (lookup-insert t k c a.channels))

unregistered :
    (t : String) (a : ChannelAdapter) (o : Option ChannelLoader)
    → Agrees a
    → Agrees (unregister_found t a o).adapter
unfolding registry_remove registry_get get_channel_info
unregistered t a none agrees = agrees
unregistered t a (some c) agrees = λ k.
    lookup-delete t k a.registry
    ∙ ap (λ o. if t == k then none else o) (agrees k)
    ∙ info (t == k) (lookup k a.channels)
    ∙ ap info_of (sym (lookup-delete t k a.channels))
  where
    info :
        (b : Bool) (o : Option ChannelLoader)
        → (if b then none else info_of o) ≡ info_of (if b then none else o)
    info true o = refl
    info false o = refl

-- What is done to an adapter, short of stopping all channels.
pub data Step : ChannelAdapter → ChannelAdapter → Type 0 where
  registers : (c : ChannelLoader) (a : ChannelAdapter) → Step a (register_channel c a).adapter
  unregisters : (t : String) (a : ChannelAdapter) → Step a (unregister_channel t a).adapter
  starts : (t : String) (a : ChannelAdapter) → Step a (start_channel t a).adapter
  starts_all : (a : ChannelAdapter) → Step a (start_all_channels a).adapter

pub data Reaches : ChannelAdapter → ChannelAdapter → Type 0 where
  here : (a : ChannelAdapter) → Reaches a a
  then_step : {a b c : ChannelAdapter} → Reaches a b → Step b c → Reaches a c

started :
    (t : String) (a : ChannelAdapter) (o : Option ChannelLoader)
    → Agrees a
    → Agrees (start_found t a o).adapter
started t a none agrees = agrees
started t a (some c) agrees = agrees

step-Agrees : {a b : ChannelAdapter} → Step a b → Agrees a → Agrees b
unfolding register_channel unregister_channel start_channel start_all_channels
step-Agrees (registers c a) agrees = registered c a (lookup c.channel_info.type a.channels) agrees
step-Agrees (unregisters t a) agrees = unregistered t a (lookup t a.channels) agrees
step-Agrees (starts t a) agrees = started t a (lookup t a.channels) agrees
step-Agrees (starts_all a) agrees = agrees

-- After any registrations, removals and starts the registry has exactly the channels of the adapter,
-- each with its information.
pub reaches-Agrees : (a : ChannelAdapter) → Reaches new_channel_adapter a → Agrees a
unfolding new_channel_adapter registry_get get_channel_info lookup
reaches-Agrees a r = go r (λ k. refl)
  where
    go : {b c : ChannelAdapter} → Reaches b c → Agrees b → Agrees c
    go (here a) agrees = agrees
    go (then_step r s) agrees = step-Agrees s (go r agrees)

-- After any registrations, removals and starts, stopping all channels forgets them but leaves the
-- registry: it still lists every channel that was there, under a type that the adapter no longer
-- finds.
pub stop_all_channels-stale :
    (a : ChannelAdapter) (k : String) (i : ChannelInfo)
    → Reaches new_channel_adapter a
    → get_channel_info k a ≡ some i
    → let b = (stop_all_channels a).adapter in
      (has_channel k b ≡ false) × (registry_get k b.registry ≡ some i)
unfolding stop_all_channels has_channel lookup
stop_all_channels-stale a k i r found = (refl, reaches-Agrees a r k ∙ found)

-- The adapter with a channel added.
abbrev added : ChannelLoader → ChannelAdapter → ChannelAdapter
added c a = record {
  channels = insert c.channel_info.type c a.channels;
  registry = registry_add c.channel_info a.registry;
}

added_when :
    (c : ChannelLoader) (a : ChannelAdapter)
    → has_channel c.channel_info.type a ≡ false
    → c.initialize ≡ none
    → (register_channel c a).adapter ≡ added c a
unfolding register_channel has_channel
added_when c a absent works = elim (Option-cases (lookup c.channel_info.type a.channels)) [
  | inl gone ↦
      ap (λ o. (register_new c a o).adapter) gone
      ∙ ap (λ o. (register_initialized c a o).adapter) works
  | inr (d, e) ↦ absurd (differ (sym (ap is_some e) ∙ absent))
]
  where
    differ : true ≡ false → ⊥
    differ q = cc

-- A channel that initializes, and of whose type there is none yet, is found once it is registered with
-- its information; a second registration of its type is then refused, with no call of the second
-- channel, and changes nothing; and a removal takes it out of both maps.
pub register_channel_once :
    (c d : ChannelLoader) (a : ChannelAdapter)
    → has_channel c.channel_info.type a ≡ false
    → c.initialize ≡ none
    → d.channel_info.type ≡ c.channel_info.type
    → let t = c.channel_info.type in
      let b = (register_channel c a).adapter in
      (get_channel_info t b ≡ some c.channel_info)
      × (register_channel d b
          ≡ record { answer = some (already_registered t); adapter = b; calls = [] })
      × (get_channel_info t (unregister_channel t b).adapter ≡ none)
      × (registry_get t (unregister_channel t b).adapter.registry ≡ none)
unfolding register_channel unregister_channel get_channel_info registry_get registry_remove
register_channel_once c d a absent works same = subst Once (sym (added_when c a absent works)) (
  ap info_of there,
  ap (λ t. register_new d (added c a) (lookup t (added c a).channels)) same
      ∙ ap (register_new d (added c a)) there
      ∙ ap refusal same,
  ap
        (λ o. info_of (
          lookup c.channel_info.type
            (unregister_found c.channel_info.type (added c a) o).adapter.channels))
        there
      ∙ ap info_of (lookup-delete_self c.channel_info.type (added c a).channels),
  ap
        (λ o.
          lookup c.channel_info.type
            (unregister_found c.channel_info.type (added c a) o).adapter.registry)
        there
      ∙ lookup-delete_self c.channel_info.type (added c a).registry,
)
  where
    Once : ChannelAdapter → Type 0
    Once b =
        let t = c.channel_info.type in
        (get_channel_info t b ≡ some c.channel_info)
        × (register_channel d b
            ≡ record { answer = some (already_registered t); adapter = b; calls = [] })
        × (get_channel_info t (unregister_channel t b).adapter ≡ none)
        × (registry_get t (unregister_channel t b).adapter.registry ≡ none)

    there : lookup c.channel_info.type (added c a).channels ≡ some c
    there = lookup-insert_self c.channel_info.type c a.channels

    refusal : String → Result (Option AdapterError)
    refusal t = record { answer = some (already_registered t); adapter = added c a; calls = [] }
