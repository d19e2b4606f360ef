-- ===== src/Health.antt =====
-- healthcheck.go: the backoff between reconnection attempts, and the probe of a server.
use mcp_multiplexer.Base.{
  ℕ, suc, zero, ◌+◌, ◌-◌, ◌*◌, ◌/◌, ◌^◌, ◌≤◌, ◌≡◌, refl, ap, ◌∙◌, min, ◌==◌, nat_eq, Text, text_eq,
  if◌then◌else◌, Option, none, some, List, lookup, ℤ, pos, negsuc, wrap64, ltb_ℤ, leb_ℤ, arith,
}
use mcp_multiplexer.Errors.{Failure, unknown_server, no_session, outside}
use mcp_multiplexer.Host.{Host, Answer, ok, err, RawTool, Session}
use mcp_multiplexer.Options.{second}
use mcp_multiplexer.Mux.{Mux, ServerEntry}

double : ℤ → ℤ
double (pos n) = pos (n * 2)
double (negsuc n) = negsuc (n * 2 + 1)

abbrev max_backoff : ℤ
max_backoff = pos (60 * second)

-- `nextBackoff`, on durations of 64 bits.
unfoldable pub next_backoff : ℤ → ℤ
unfolding double
next_backoff cur =
    if leb_ℤ cur (pos 0)
    then pos second
    else (let next = wrap64 (double cur) in if ltb_ℤ max_backoff next then max_backoff else next)

-- The backoff of the loop of `reconnectServer` after `n` rounds; it starts at zero.
unfoldable pub backoff : ℕ → ℤ
backoff zero = pos 0
backoff (suc n) = next_backoff (backoff n)

-- `probeCtx`: half of the interval, rounded towards zero, and ten seconds at most.
unfoldable pub probe_timeout : ℤ → ℤ
probe_timeout (negsuc n) = if n == 0 then pos 0 else negsuc ((n + 1) / 2 - 1)
probe_timeout (pos n) =
    if ltb_ℤ (pos (10 * second)) (pos (n / 2)) then pos (10 * second) else pos (n / 2)

module _ {W E : Type 0} (host : Host W E) where
  probed : Answer E (List RawTool) × W → Option (Failure E) × W
  probed (ok tools, w) = (none, w)
  probed (err e, w) = (some (outside e), w)

  probe_session : Text → ℤ → Option Session → W → Option (Failure E) × W
  unfolding probed
  probe_session name timeout none w = (some (no_session name), w)
  probe_session name timeout (some session) w = probed (host.list_tools (some timeout) session w)

  probe_entry : Text → ℤ → Option ServerEntry → W → Option (Failure E) × W
  unfolding probe_session
  probe_entry name interval none w = (some (unknown_server name), w)
  probe_entry name interval (some entry) w =
      probe_session name (probe_timeout interval) entry.session w

  -- `probeServer`
  unfoldable pub probe_server : Mux W E → Text → ℤ → W → Option (Failure E) × W
  unfolding probe_entry
  probe_server mx name interval w = probe_entry name interval (lookup name mx.servers) w

next_backoff_small :
    (m : ℕ) → 1 ≤ m → m ≤ 60 → next_backoff (pos (m * second)) ≡ pos (min (2 * m) 60 * second)
unfolding next_backoff
next_backoff_small m lo hi = ground arith

double_pow : (n : ℕ) → 2 ^ suc n ≡ 2 * 2 ^ n
double_pow n = omega arith

one-le-pow : (n : ℕ) → 1 ≤ 2 ^ n
one-le-pow zero = omega arith
one-le-pow (suc n) = omega (arith, one-le-pow n, double_pow n)

capped : (a b : ℕ) → b ≡ 2 * a → min (2 * min a 60) 60 ≡ min b 60
capped a b h = ground (arith, h)

-- The backoff doubles from one second and stays at sixty: round `n + 1` waits for the lesser of
-- `2 ^ n` and 60 seconds. The product never overflows.
pub backoff_lem : (n : ℕ) → backoff (suc n) ≡ pos (min (2 ^ n) 60 * second)
unfolding backoff next_backoff
backoff_lem zero = refl
backoff_lem (suc n) =
    ap next_backoff (backoff_lem n)
    ∙ next_backoff_small (min (2 ^ n) 60) (ground (arith, one-le-pow n)) (ground arith)
    ∙ ap (λ m. pos (m * second)) (capped (2 ^ n) (2 ^ suc n) (double_pow n))
