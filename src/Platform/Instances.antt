-- ===== src/Platform/Instances.antt =====
-- Plain timers and queues that do what the interfaces promise: the promises can be met.
use alpr_li_dar_gate_automat.Base.{
  ℕ, refl, Bool, true, false, Option, none, some, List, [], ◌∷◌, ◌++◌, length, ltb, if◌then◌else◌,
}
use alpr_li_dar_gate_automat.Platform.Api.{TimerApi, QueueApi, head?, tail}

-- A timer is the time that it was armed with.
abbrev pub simple_is_active : Option ℕ → Bool
simple_is_active none = false
simple_is_active (some us) = true

abbrev pub simple_timers : TimerApi
simple_timers = record {
  Timer = Option ℕ;
  create = none;
  is_active = simple_is_active;
  start_once = λ t us. some us;
  start_periodic = λ t us. some us;
  stop = λ t. none;
  expire = λ t. none;
  create_inactive = refl;
  start_once_active = λ t us h. refl;
  start_periodic_active = λ t us h. refl;
  stop_inactive = λ t. refl;
  expire_inactive = λ t. refl;
}

pub record BoundedList (A : Type 0) : Type 0 where
  pub items : List A
  pub bound : ℕ

module _ {A : Type 0} where
  abbrev pub simple_queues : QueueApi A
  simple_queues = record {
    Queue = BoundedList A;
    create = λ n. record { items = []; bound = n };
    send = λ q a. (
      record q { items = if ltb (length q.items) q.bound then q.items ++ a ∷ [] else q.items },
      ltb (length q.items) q.bound,
    );
    receive = λ q. (record q { items = tail q.items }, head? q.items);
    waiting = λ q. q.items;
    depth = λ q. q.bound;
    waiting_create = λ n. refl;
    depth_create = λ n. refl;
    waiting_send = λ q a. refl;
    send_room = λ q a. refl;
    depth_send = λ q a. refl;
    waiting_receive = λ q. refl;
    receive_first = λ q. refl;
    depth_receive = λ q. refl;
  }
