-- ===== src/Cron/Create/Valid.antt =====
-- Which jobs a request makes.
use ocg.Base.{
  ◌≡◌, ◌≢◌, refl, sym, ◌∙◌, ◌⊎◌, inl, inr, true, false, String, ◌==◌, string_eq, arith, Bool-cases,
  if_true, if_false, subst,
}
use ocg.Base.Int.{ℤ, pos}
use ocg.Base.Json.{Json, Fields, get, as_string, or_keep}
use ocg.Cron.{Job, JobState}
use ocg.Cron.Create.{
  Created, created, refused, name_required, kind_required, fix_kind, job_from_map,
  create_job_from_map,
}
use ocg.Cron.Create.Reads.{
  Text, Flag, Members, IsSchedule, PayloadKind, IsPayload, DeliveryOf, Text-read, Flag-read,
  IsSchedule-read, IsPayload-read, DeliveryOf-read,
}

abbrev pub zero_state : JobState
zero_state = record {
  next_run_at_ms = pos 0;
  last_run_at_ms = pos 0;
  last_status = "";
  last_duration_ms = pos 0;
  consecutive_errors = 0;
}

module _ {F : Type 0} (int64 : F → ℤ) where
  -- A job whose every field is what the request says of it, or its default.
  pub record IsOf (data' : Fields F) (job : Job) : Type 0 where
    pub name : Text "" (get "name" data') job.name
    pub description : Text "" (get "description" data') job.description
    pub agent_id : Text "" (get "agentId" data') job.agent_id
    pub session_target : Text "main" (get "sessionTarget" data') job.session_target
    pub wake_mode : Text "now" (get "wakeMode" data') job.wake_mode
    pub schedule :
        (fs : Fields F) × Members (get "schedule" data') fs × IsSchedule int64 fs job.schedule
    pub payload :
        (fs : Fields F) × Members (get "payload" data') fs
        × IsPayload int64 job.session_target fs job.payload
    pub delivery : DeliveryOf int64 (get "delivery" data') job.delivery
    pub delete_after_run :
        Flag (job.schedule.kind == "at") (get "deleteAfterRun" data') job.delete_after_run
    pub enabled : job.enabled ≡ true
    pub id : job.id ≡ ""
    pub created_at : job.created_at ≡ 0
    pub updated_at : job.updated_at ≡ 0
    pub state : job.state ≡ zero_state

  -- The kind of schedule that a request names.
  abbrev pub KindOf : Fields F → String → Type 0
  KindOf data' kind =
      (fs : Fields F) × Members (get "schedule" data') fs × Text "" (get "kind" fs) kind

  -- The three answers to a request.
  abbrev pub Answered : Fields F → Created → Type 0
  Answered data' r =
      (Text "" (get "name" data') "" × (r ≡ refused name_required))
      ⊎ ((name : String) × Text "" (get "name" data') name
          × (name ≢ "")
          × KindOf data' ""
          × (r ≡ refused kind_required))
      ⊎ ((job : Job) × (r ≡ created job)
          × IsOf data' job
          × (job.name ≢ "")
          × (job.schedule.kind ≢ ""))

  fix_kind-PayloadKind :
      (target : String) (v : Json F) (kind : String)
      → kind ≡ or_keep "" (as_string v)
      → PayloadKind int64 target v (fix_kind target kind)
  fix_kind-PayloadKind target v kind e = (
    λ main. if_true _ _ ((string_eq.test_iff target "main").1 main),
    λ isolated. apart isolated,
    λ n k.
        subst (Text "" v)
          (sym (if_false _ _ (is_not "main" n) ∙ if_false _ _ (is_not "isolated" k) ∙ e))
          (Text-read "" v),
  )
    where
      is_not : (s : String) → target ≢ s → (target == s) ≡ false
      is_not s n = ground (arith, string_eq.test_iff target s)

      apart : target ≡ "isolated" → fix_kind target kind ≡ "agentTurn"
      apart i = subst (λ t. fix_kind t kind ≡ "agentTurn") (sym i) refl

  job_from_map-IsOf :
      (data' : Fields F)
      → let job = job_from_map int64 data' in
        IsOf data' (record job {
          payload = record job.payload { kind = fix_kind job.session_target job.payload.kind };
        })
  job_from_map-IsOf data' =
      let job = job_from_map int64 data' in
      record {
        name = Text-read "" (get "name" data');
        description = Text-read "" (get "description" data');
        agent_id = Text-read "" (get "agentId" data');
        session_target = Text-read "main" (get "sessionTarget" data');
        wake_mode = Text-read "now" (get "wakeMode" data');
        schedule = IsSchedule-read int64 (get "schedule" data');
        payload =
            IsPayload-read int64 (get "payload" data') job.session_target
              (fix_kind job.session_target job.payload.kind)
              (λ fs e. fix_kind-PayloadKind job.session_target (get "kind" fs) job.payload.kind e);
        delivery = DeliveryOf-read int64 (get "delivery" data');
        delete_after_run = Flag-read (job.schedule.kind == "at") (get "deleteAfterRun" data');
        enabled = refl;
        id = refl;
        created_at = refl;
        updated_at = refl;
        state = refl;
      }

  kind_named : (data' : Fields F) → KindOf data' (job_from_map int64 data').schedule.kind
  kind_named data' =
      let (fs, m, s) = IsSchedule-read int64 (get "schedule" data') in (fs, m, s.kind)

  -- A request whose name is no string or empty is refused for it, one with a name and without a
  -- schedule of a kind that is not empty for that. Any other makes an enabled job that is new and whose
  -- every field is that member of the request: a member of another form counts as missing,
  -- for which the session is "main", the wake mode "now", `delete_after_run` set exactly for
  -- a schedule of the kind "at", and all else empty; but the kind of the payload is a system event for
  -- the main session and a turn of the agent for an isolated one, whatever the request says.
  pub create_job_from_map-Answered :
      (data' : Fields F) → Answered data' (create_job_from_map int64 data')
  unfolding create_job_from_map
  create_job_from_map-Answered data' =
      let job = job_from_map int64 data' in
      elim (Bool-cases (job.name == "")) [
        | inl nameless ↦ inl (
          subst (Text "" (get "name" data')) ((string_eq.test_iff _ _).0 nameless)
              (Text-read "" (get "name" data')),
          if_true _ _ nameless,
        )
        | inr named ↦ elim (Bool-cases (job.schedule.kind == "")) [
          | inl never ↦ inr (
              inl (
                job.name,
                Text-read "" (get "name" data'),
                differs job.name named,
                subst (KindOf data') ((string_eq.test_iff _ _).0 never) (kind_named data'),
                if_false _ _ named ∙ if_true _ _ never,
              ))
          | inr sometime ↦ inr (
              inr (
                _,
                if_false _ _ named ∙ if_false _ _ sometime,
                job_from_map-IsOf data',
                differs job.name named,
                differs job.schedule.kind sometime,
              ))
        ]
      ]
    where
      differs : (s : String) → (s == "") ≡ false → s ≢ ""
      differs s f e = ground (arith, string_eq.test_iff s "")
