-- ===== src/Drivers/StatusLed/Frames.antt =====
-- What an observer of the LED sees, tick by tick.
use alpr_li_dar_gate_automat.Base.{
  inl, inr, refl, subst, ◌-◌, ◌⊎◌, u32_mod, ◌<◌, Bool, Option, arith, bool_eq, false, if◌then◌else◌,
  ltb, none, some, suc, true, zero, ℕ, ◌%◌, ◌*◌, ◌+◌, ◌==◌, ◌≡◌, ◌≢◌,
}
use alpr_li_dar_gate_automat.Platform.Api.{TimerApi}
use alpr_li_dar_gate_automat.Drivers.StatusLed.{
  Bool, ℕ, StatusLed, Pattern, off, auth_flash, deny_flash, fault_slow, ota_pulse, boot_ok,
  gate_moving, gate_open, gate_stopped, render, on_tick,
}

-- The colour that is lit.
pub data Light : Type 0 where
  dark red green yellow : Light

-- The first half of each period of `2 * half` frames.
abbrev pub first_half : ℕ → ℕ → Bool
first_half half n = ltb (n % (2 * half)) half

-- The picture book: what frame `n` of a pattern shows, `none` when the pattern is over.
abbrev pub frame : Pattern → ℕ → Option Light
frame off n = none
frame auth_flash n = if ltb n 6 then some (if first_half 1 n then green else dark) else none
frame deny_flash n = if ltb n 6 then some (if first_half 1 n then red else dark) else none
frame fault_slow n = some (if first_half 5 n then red else dark)
frame ota_pulse n = some (if first_half 5 n then yellow else dark)
frame boot_ok n = if ltb n 20 then some green else none
frame gate_moving n = some (if first_half 2 n then yellow else dark)
frame gate_open n = some green
frame gate_stopped n = some (if first_half 5 n then red else yellow)

-- Gate-open needs no animation: it is latched by its first frame.
abbrev pub is_animated : Pattern → Bool
is_animated gate_open = false
is_animated _ = true

frame_before : (p : Pattern) (n : ℕ) → frame p (suc n) ≢ none → frame p n ≢ none
frame_before p n ne = ground arith

module _ {T : TimerApi} where
  abbrev lit : StatusLed T → ℕ → Bool
  lit s level = bool_eq (level == 1) s.active_high

  -- The LED shows one light: its pin alone is at the active level.
  abbrev pub Shows : StatusLed T → Light → Type 0
  Shows s dark = (lit s s.red ≡ false) × (lit s s.green ≡ false) × (lit s s.yellow ≡ false)
  Shows s red = (lit s s.red ≡ true) × (lit s s.green ≡ false) × (lit s s.yellow ≡ false)
  Shows s green = (lit s s.red ≡ false) × (lit s s.green ≡ true) × (lit s s.yellow ≡ false)
  Shows s yellow = (lit s s.red ≡ false) × (lit s s.green ≡ false) × (lit s s.yellow ≡ true)

  unfoldable pub ticks : ℕ → StatusLed T → StatusLed T
  ticks zero s = s
  ticks (suc n) s = on_tick (ticks n s)

  -- Frame `n` of pattern `p` stands on the LED, and the timer will bring the next.
  pub record Stands (p : Pattern) (n : ℕ) (s : StatusLed T) : Type 0 where
    pub same : s.current ≡ p
    pub counted : s.restart_requested ≡ false
    pub at : s.step ≡ n + 1
    pub runs : T.is_active s.timer ≡ true

  -- What a tick that should draw frame `n` of `p` leaves, where `frame p n` is the last argument.
  abbrev pub Plays : Pattern → ℕ → StatusLed T → Option Light → Type 0
  Plays p n s none = Shows s dark × (T.is_active s.timer ≡ false)
  Plays p n s (some l) = Shows s l × (is_animated p ≡ true → Stands p n s)

  render_starts :
      (s : StatusLed T) (p : Pattern)
      → p ≢ off
      → ((render s p).current ≡ p)
        × ((render s p).restart_requested ≡ true)
        × (T.is_active (render s p).timer ≡ true)
  unfolding render
  render_starts s p h = ground (arith, T.start_periodic_active s.timer 100_000)

  first_tick :
      (s : StatusLed T) (p : Pattern)
      → s.current ≡ p
      → s.restart_requested ≡ true
      → T.is_active s.timer ≡ true
      → Plays p 0 (on_tick s) (frame p 0)
  unfolding on_tick
  first_tick s off e r a = ground (arith, T.stop_inactive s.timer)
  first_tick s gate_open e r a = ground (arith, T.stop_inactive s.timer)
  first_tick s _ e r a = ground arith

  next_tick :
      (s : StatusLed T) (p : Pattern) (n : ℕ)
      → n + 2 < u32_mod
      → Stands p n s
      → Plays p (suc n) (on_tick s) (frame p (suc n))
  unfolding on_tick
  next_tick s off n b v = ground (arith, T.stop_inactive s.timer)
  next_tick s gate_open n b v = ground (arith, T.stop_inactive s.timer)
  next_tick s _ n b v = ground (arith, T.stop_inactive s.timer)

  Stands-of_Plays :
      (s : StatusLed T) (p : Pattern) (n : ℕ) (o : Option Light)
      → is_animated p ≡ true
      → o ≢ none
      → Plays p n s o
      → Stands p n s
  Stands-of_Plays s p n none a ne h = absurd (ne refl)
  Stands-of_Plays s p n (some l) a ne h = h.1 a

  first-Plays :
      (s : StatusLed T) (p : Pattern) → p ≢ off → Plays p 0 (ticks 1 (render s p)) (frame p 0)
  unfolding ticks
  first-Plays s p ne = let (e, r, a) = render_starts s p ne in first_tick (render s p) p e r a

  Stands-ticks :
      (s : StatusLed T) (p : Pattern) (n : ℕ)
      → p ≢ off
      → is_animated p ≡ true
      → n + 1 < u32_mod
      → frame p n ≢ none
      → Stands p n (ticks (suc n) (render s p))
  unfolding ticks
  Stands-ticks s p zero ne a b f =
      Stands-of_Plays (ticks 1 (render s p)) p 0 (frame p 0) a f (first-Plays s p ne)
  Stands-ticks s p (suc n) ne a b f =
      Stands-of_Plays (ticks (suc (suc n)) (render s p)) p (suc n) (frame p (suc n)) a f (
        next_tick (ticks (suc n) (render s p)) p n (omega arith)
          (Stands-ticks s p n ne a (omega arith) (frame_before p n f)))

  -- Whatever the LED did before `render`, tick n + 1 after it shows frame n of an animated pattern
  -- and leaves the timer running for the next; where the pattern is over at frame n, the tick
  -- leaves the LED dark and the timer stopped.
  pub ticks-render :
      (s : StatusLed T) (p : Pattern) (n : ℕ)
      → p ≢ off
      → is_animated p ≡ true
      → n + 1 < u32_mod
      → (n ≡ 0) ⊎ (frame p (n - 1) ≢ none)
      → Plays p n (ticks (suc n) (render s p)) (frame p n)
  unfolding ticks
  ticks-render s p zero ne a b f = first-Plays s p ne
  ticks-render s p (suc n) ne a b (inl e) = absurd (omega arith)
  ticks-render s p (suc n) ne a b (inr f) =
      next_tick (ticks (suc n) (render s p)) p n (omega arith)
        (Stands-ticks s p n ne a (omega arith) (subst (λ k. frame p k ≢ none) (omega arith) f))

  -- `off` darkens the LED at once and stops the timer; `gate_open` shows green from its first tick,
  -- which stops the timer.
  pub render_steady :
      (s : StatusLed T)
      → (Shows (render s off) dark × (T.is_active (render s off).timer ≡ false))
        × (Shows (ticks 1 (render s gate_open)) green
            × (T.is_active (ticks 1 (render s gate_open)).timer ≡ false))
  unfolding render ticks on_tick
  render_steady s = ground (
    arith,
    T.stop_inactive s.timer,
    T.start_periodic_active s.timer 100_000,
    T.stop_inactive (T.start_periodic s.timer 100_000),
  )
