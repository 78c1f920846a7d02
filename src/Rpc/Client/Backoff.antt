-- ===== src/Rpc/Client/Backoff.antt =====
-- How long the client waits before it connects again.
use alpr_li_dar_gate_automat.Base.{
  Bool, List, [], arith, false, if◌then◌else◌, ltb, suc, true, zero, ℕ, ◌*◌, ◌<◌, ◌∷◌, ◌≡◌, ◌≤◌,
}
use alpr_li_dar_gate_automat.Rpc.Client.{ClientConfig, next_backoff}

-- The backoff after sessions that did or did not reach the stream, the newest first.
unfoldable pub backoff_after : ClientConfig → List Bool → ℕ
unfolding next_backoff
backoff_after cfg [] = cfg.reconnect_min_ms
backoff_after cfg (reached ∷ older) = (next_backoff cfg reached (backoff_after cfg older)).1

-- The waits that were taken since the backoff was last reset.
abbrev pub waits : List Bool → ℕ
waits [] = 0
waits (true ∷ older) = 1
waits (false ∷ older) = suc (waits older)

abbrev pub doubled : ℕ → ℕ → ℕ
doubled m zero = m
doubled m (suc n) = doubled m n * 2

abbrev pub capped : ℕ → ℕ → ℕ
capped max n = if ltb max n then max else n

capped_twice : (max n : ℕ) → capped max (capped max n * 2) ≡ capped max (n * 2)
capped_twice max n = ground arith

backoff_after_lem :
    (cfg : ClientConfig) (outcomes : List Bool)
    → cfg.reconnect_min_ms ≤ cfg.reconnect_max_ms
    → cfg.reconnect_max_ms < 2_147_483_648
    → backoff_after cfg outcomes
      ≡ capped cfg.reconnect_max_ms (doubled cfg.reconnect_min_ms (waits outcomes))
unfolding backoff_after next_backoff
backoff_after_lem cfg [] h k = ground (arith, h)
backoff_after_lem cfg (true ∷ older) h k = ground (arith, h, k)
backoff_after_lem cfg (false ∷ older) h k =
    let m = doubled cfg.reconnect_min_ms (waits older) in
    ground (arith, h, k, backoff_after_lem cfg older h k, capped_twice cfg.reconnect_max_ms m)

-- With a least wait that does not exceed the greatest, which is below 2^31 ms: the client waits the
-- least time after a session that reached its stream, and after each further one that did not twice
-- as long as before, up to the greatest wait.
pub next_backoff_lem :
    (cfg : ClientConfig) (outcomes : List Bool) (reached : Bool)
    → cfg.reconnect_min_ms ≤ cfg.reconnect_max_ms
    → cfg.reconnect_max_ms < 2_147_483_648
    → (next_backoff cfg reached (backoff_after cfg outcomes)).0
      ≡ capped cfg.reconnect_max_ms
          (doubled cfg.reconnect_min_ms (if reached then 0 else waits outcomes))
unfolding next_backoff
next_backoff_lem cfg outcomes true h k = ground (arith, h)
next_backoff_lem cfg outcomes false h k = backoff_after_lem cfg outcomes h k
