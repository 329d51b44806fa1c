-- ===== src/Cron/Create/Reads.antt =====
-- What the fields of a decoded request say, described without the code's reading of them.
use ocg.Base.{
  ◌≡◌, ◌≢◌, refl, sym, ap, subst, ◌⊎◌, inl, inr, Bool, false, Option, none, some, String,
}
use ocg.Base.Int.{ℤ, pos}
use ocg.Base.Json.{Json, Fields, get, as_string, as_bool, as_num, as_map, or_keep}
use ocg.Cron.{Schedule, Payload, Delivery}
use ocg.Cron.Create.{create_schedule, create_payload, create_delivery}
use ocg.Cron.Store.{or_int64}

-- The value that a field holds in this form, or the default if it holds none in this form.
abbrev pub Reads : {A F : Type 0} → (A → Json F) → A → Json F → A → Type 0
Reads form default v x = (v ≡ form x) ⊎ (((y : _) → v ≢ form y) × (x ≡ default))

module _ {F : Type 0} where
  abbrev pub Text : String → Json F → String → Type 0
  Text default v x = Reads Json.str default v x

  abbrev pub Flag : Bool → Json F → Bool → Type 0
  Flag default v x = Reads Json.bool default v x

  -- The members of an object; anything else has none.
  abbrev pub Members : Json F → Fields F → Type 0
  Members v fs = Reads Json.obj Fields.end v fs

  pub Text-read : (default : String) (v : Json F) → Text default v (or_keep default (as_string v))
  Text-read default (Json.str s) = inl refl
  Text-read default Json.null = inr (λ y e. cc, refl)
  Text-read default (Json.bool b) = inr (λ y e. cc, refl)
  Text-read default (Json.num x) = inr (λ y e. cc, refl)
  Text-read default (Json.arr xs) = inr (λ y e. cc, refl)
  Text-read default (Json.obj fs) = inr (λ y e. cc, refl)

  pub Flag-read : (default : Bool) (v : Json F) → Flag default v (or_keep default (as_bool v))
  Flag-read default (Json.bool b) = inl refl
  Flag-read default Json.null = inr (λ y e. cc, refl)
  Flag-read default (Json.str s) = inr (λ y e. cc, refl)
  Flag-read default (Json.num x) = inr (λ y e. cc, refl)
  Flag-read default (Json.arr xs) = inr (λ y e. cc, refl)
  Flag-read default (Json.obj fs) = inr (λ y e. cc, refl)

  -- An object, or a value that is none.
  pub object_or_not :
      (v : Json F)
      → ((fs : Fields F) × (v ≡ Json.obj fs))
        ⊎ (((fs : Fields F) → v ≢ Json.obj fs) × (as_map v ≡ none))
  object_or_not (Json.obj fs) = inl (fs, refl)
  object_or_not Json.null = inr (λ y e. cc, refl)
  object_or_not (Json.str s) = inr (λ y e. cc, refl)
  object_or_not (Json.bool b) = inr (λ y e. cc, refl)
  object_or_not (Json.num x) = inr (λ y e. cc, refl)
  object_or_not (Json.arr xs) = inr (λ y e. cc, refl)

module _ {F : Type 0} (int64 : F → ℤ) where
  -- A number is converted; anything else counts as zero.
  abbrev pub Int64 : Json F → ℤ → Type 0
  Int64 v n =
      ((x : F) × (v ≡ Json.num x) × (n ≡ int64 x)) ⊎ (((x : F) → v ≢ Json.num x) × (n ≡ pos 0))

  pub Int64-read : (v : Json F) → Int64 v (or_int64 int64 (pos 0) (as_num v))
  Int64-read (Json.num x) = inl (x, refl, refl)
  Int64-read Json.null = inr (λ y e. cc, refl)
  Int64-read (Json.str s) = inr (λ y e. cc, refl)
  Int64-read (Json.bool b) = inr (λ y e. cc, refl)
  Int64-read (Json.arr xs) = inr (λ y e. cc, refl)
  Int64-read (Json.obj fs) = inr (λ y e. cc, refl)

  -- A schedule with the values of an object's members.
  pub record IsSchedule (fs : Fields F) (s : Schedule) : Type 0 where
    pub kind : Text "" (get "kind" fs) s.kind
    pub at : Text "" (get "at" fs) s.at
    pub every_ms : Int64 (get "everyMs" fs) s.every_ms
    pub expr : Text "" (get "expr" fs) s.expr
    pub tz : Text "" (get "tz" fs) s.tz
    pub stagger_ms : Int64 (get "staggerMs" fs) s.stagger_ms
    pub anchor_ms : Int64 (get "anchorMs" fs) s.anchor_ms

  -- The session decides the kind of the payload; for another session it is the one of the request.
  abbrev pub PayloadKind : String → Json F → String → Type 0
  PayloadKind target v kind =
      (target ≡ "main" → kind ≡ "systemEvent")
      × (target ≡ "isolated" → kind ≡ "agentTurn")
      × (target ≢ "main" → target ≢ "isolated" → Text "" v kind)

  pub record IsPayload (target : String) (fs : Fields F) (p : Payload) : Type 0 where
    pub kind : PayloadKind target (get "kind" fs) p.kind
    pub text : Text "" (get "text" fs) p.text
    pub message : Text "" (get "message" fs) p.message
    pub model : Text "" (get "model" fs) p.model
    pub thinking : Text "" (get "thinking" fs) p.thinking
    pub timeout_seconds : Int64 (get "timeoutSeconds" fs) p.timeout_seconds

  pub record IsDelivery (fs : Fields F) (d : Delivery) : Type 0 where
    pub mode : Text "" (get "mode" fs) d.mode
    pub channel : Text "" (get "channel" fs) d.channel
    pub to : Text "" (get "to" fs) d.to
    pub best_effort : Flag false (get "bestEffort" fs) d.best_effort
    pub webhook : Text "" (get "webhook" fs) d.webhook

  -- Only an object gives a delivery.
  abbrev pub DeliveryOf : Json F → Option Delivery → Type 0
  DeliveryOf v o =
      ((fs : Fields F) × (d : Delivery) × (v ≡ Json.obj fs) × (o ≡ some d) × IsDelivery fs d)
      ⊎ (((fs : Fields F) → v ≢ Json.obj fs) × (o ≡ none))

  read-IsSchedule : (fs : Fields F) → IsSchedule fs (create_schedule int64 (some fs))
  read-IsSchedule fs = record {
    kind = Text-read "" (get "kind" fs);
    at = Text-read "" (get "at" fs);
    every_ms = Int64-read (get "everyMs" fs);
    expr = Text-read "" (get "expr" fs);
    tz = Text-read "" (get "tz" fs);
    stagger_ms = Int64-read (get "staggerMs" fs);
    anchor_ms = Int64-read (get "anchorMs" fs);
  }

  pub IsSchedule-read :
      (v : Json F)
      → (fs : Fields F) × Members v fs × IsSchedule fs (create_schedule int64 (as_map v))
  IsSchedule-read v = elim (object_or_not v) [
    | inl (fs, e) ↦ (
      fs,
      inl e,
      subst (λ w. IsSchedule fs (create_schedule int64 (as_map w))) (sym e) (read-IsSchedule fs),
    )
    | inr (other, e) ↦ (
      Fields.end,
      inr (other, refl),
      subst (λ o. IsSchedule Fields.end (create_schedule int64 o)) (sym e)
          (read-IsSchedule Fields.end),
    )
  ]

  -- The payload of an object's members, with a kind that the session allows.
  pub IsPayload-read :
      (v : Json F) (target kind : String)
      → ((fs : Fields F)
          → (create_payload int64 (as_map v)).kind ≡ or_keep "" (as_string (get "kind" fs))
          → PayloadKind target (get "kind" fs) kind)
      → (fs : Fields F) × Members v fs
        × IsPayload target fs (record (create_payload int64 (as_map v)) { kind = kind })
  IsPayload-read v target kind k = elim (object_or_not v) [
    | inl (fs, e) ↦ (
      fs,
      inl e,
      subst (λ w. IsPayload target fs (record (create_payload int64 (as_map w)) { kind = kind }))
          (sym e) (read-IsPayload fs (k fs (ap (λ w. (create_payload int64 (as_map w)).kind) e))),
    )
    | inr (other, e) ↦ (
      Fields.end,
      inr (other, refl),
      subst (λ o. IsPayload target Fields.end (record (create_payload int64 o) { kind = kind }))
          (sym e)
          (read-IsPayload Fields.end (k Fields.end (ap (λ o. (create_payload int64 o).kind) e))),
    )
  ]
    where
      read-IsPayload :
          (fs : Fields F)
          → PayloadKind target (get "kind" fs) kind
          → IsPayload target fs (record (create_payload int64 (some fs)) { kind = kind })
      read-IsPayload fs r = record {
        kind = r;
        text = Text-read "" (get "text" fs);
        message = Text-read "" (get "message" fs);
        model = Text-read "" (get "model" fs);
        thinking = Text-read "" (get "thinking" fs);
        timeout_seconds = Int64-read (get "timeoutSeconds" fs);
      }

  pub DeliveryOf-read : (v : Json F) → DeliveryOf v (create_delivery int64 (as_map v))
  DeliveryOf-read v = elim (object_or_not v) [
    | inl (fs, e) ↦ inl (
      fs,
      _,
      e,
      ap (λ w. create_delivery int64 (as_map w)) e,
      record {
        mode = Text-read "" (get "mode" fs);
        channel = Text-read "" (get "channel" fs);
        to = Text-read "" (get "to" fs);
        best_effort = Flag-read false (get "bestEffort" fs);
        webhook = Text-read "" (get "webhook" fs);
      },
    )
    | inr (other, e) ↦ inr (other, ap (create_delivery int64) e)
  ]
