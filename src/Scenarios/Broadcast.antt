-- ===== src/Scenarios/Broadcast.antt =====
-- The event broadcaster on concrete events.
use alpr_li_dar_gate_automat.Server.Broadcast.Stream.{subscribe_resumes, matching, unseen, push_all}
use alpr_li_dar_gate_automat.Server.Broadcast.History.{
  after_acts-IsFaithful, received_of, stream_of, after_acts,
}
use alpr_li_dar_gate_automat.Server.Broadcast.{
  fault, fresh, last_event_id, DashboardEvent, DashboardSubscription, subscribe,
}
use alpr_li_dar_gate_automat.Server.Broadcast.Ring.{
  new-IsLogged, publish_all-IsLogged, offer_log, Publication, log_from, publish_all,
}
use alpr_li_dar_gate_automat.Server.Broadcast.Queue.{drains, Act, IsFaithful, pushes, takes}
use alpr_li_dar_gate_automat.Base.{List, [], arith, false, ℕ, ◌++◌, ◌∷◌, ◌≡◌}
use alpr_li_dar_gate_automat.Server.Broadcast

abbrev everything : ℕ → DashboardSubscription
everything since = record {
  site_id = [];
  gate_ids = [];
  include_decisions = false;
  include_telemetry = false;
  include_faults = false;
  include_ota = false;
  since_event_id = since;
}

-- Events whose content is a number.
abbrev told : ℕ → Publication ℕ
told n = record {
  now = 1_700_000_000;
  site_id = b's' ∷ [];
  gate_id = b'g' ∷ [];
  event = record { event_id = 0; event_ts = 0; kind = fault; content = n };
}

abbrev numbered : ℕ → DashboardEvent ℕ
numbered n = record { event_id = n; event_ts = 1_700_000_000; kind = fault; content = n }

abbrev three_told : List (Publication ℕ)
three_told = told 7 ∷ told 8 ∷ told 9 ∷ []

abbrev some_acts : List (Act ℕ)
some_acts =
    pushes (numbered 1)
    ∷ pushes (numbered 2)
    ∷ takes
    ∷ pushes (numbered 3)
    ∷ pushes (numbered 4)
    ∷ drains
    ∷ []

after_acts-IsFaithful_example :
    IsFaithful
      (after_acts (fresh 2 (everything 0)) some_acts)
      (stream_of some_acts)
      (received_of (fresh 2 (everything 0)) some_acts)
after_acts-IsFaithful_example = after_acts-IsFaithful 2 (everything 0) some_acts

subscribe_resumes_example :
    (publish_all
      (subscribe (publish_all (Broadcast.new 2 4) three_told) (everything 1)).0
      (told 10 ∷ [])).subs
    ≡ offer_log (publish_all (Broadcast.new 2 4) three_told).subs (log_from 4 (told 10 ∷ []))
      ++ push_all
          (fresh (publish_all (Broadcast.new 2 4) three_told).per_sub_capacity (everything 1))
          (unseen (everything 1) (log_from 1 three_told)
            ++ matching (everything 1) (log_from 4 (told 10 ∷ [])))
        ∷ []
subscribe_resumes_example =
    subscribe_resumes 2 (publish_all (Broadcast.new 2 4) three_told) (everything 1) three_told
      (told 10 ∷ [])
      (publish_all-IsLogged 2 (Broadcast.new 2 4) [] three_told (omega arith) (new-IsLogged 2 4))
      (omega arith)
