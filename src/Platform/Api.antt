-- ===== src/Platform/Api.antt =====
-- The calls of esp_timer.h and freertos/queue.h that the firmware makes, with their documented effect.
use alpr_li_dar_gate_automat.Base.{
  ℕ, ◌≡◌, Bool, true, false, Option, none, some, List, [], ◌∷◌, ◌++◌, length, ltb, if◌then◌else◌,
}

abbrev pub head? : {A : Type 0} → List A → Option A
head? [] = none
head? (x ∷ xs) = some x

abbrev pub tail : {A : Type 0} → List A → List A
tail [] = []
tail (x ∷ xs) = xs

-- A started timer is active until it is stopped or, once only, expires. Starting an active timer
-- is an error of the caller, so nothing is promised of it; stopping an inactive one has no effect.
pub record TimerApi : Type 1 where
  pub Timer : Type 0
  pub create : Timer
  pub is_active : Timer → Bool
  pub start_once : Timer → ℕ → Timer
  pub start_periodic : Timer → ℕ → Timer
  pub stop : Timer → Timer
  pub expire : Timer → Timer
  pub create_inactive : is_active create ≡ false
  pub start_once_active :
      (t : Timer) (us : ℕ) → is_active t ≡ false → is_active (start_once t us) ≡ true
  pub start_periodic_active :
      (t : Timer) (us : ℕ) → is_active t ≡ false → is_active (start_periodic t us) ≡ true
  pub stop_inactive : (t : Timer) → is_active (stop t) ≡ false
  pub expire_inactive : (t : Timer) → is_active (expire t) ≡ false

-- A bounded FIFO: `waiting` is its content, oldest first. `send` with no waiting time reports whether
-- there was room, and `receive` gives nothing where the queue stays empty until the time-out.
pub record QueueApi (A : Type 0) : Type 1 where
  pub Queue : Type 0
  pub create : ℕ → Queue
  pub send : Queue → A → Queue × Bool
  pub receive : Queue → Queue × Option A
  pub waiting : Queue → List A
  pub depth : Queue → ℕ
  pub waiting_create : (n : ℕ) → waiting (create n) ≡ []
  pub depth_create : (n : ℕ) → depth (create n) ≡ n
  pub waiting_send :
      (q : Queue) (a : A)
      → waiting (send q a).0
        ≡ (if ltb (length (waiting q)) (depth q) then waiting q ++ a ∷ [] else waiting q)
  pub send_room : (q : Queue) (a : A) → (send q a).1 ≡ ltb (length (waiting q)) (depth q)
  pub depth_send : (q : Queue) (a : A) → depth (send q a).0 ≡ depth q
  pub waiting_receive : (q : Queue) → waiting (receive q).0 ≡ tail (waiting q)
  pub receive_first : (q : Queue) → (receive q).1 ≡ head? (waiting q)
  pub depth_receive : (q : Queue) → depth (receive q).0 ≡ depth q
