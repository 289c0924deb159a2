-- ===== src/Pacing/Progress.antt =====
-- A packet that pacing holds back is let through when the timer has fired.
use rquic.Base.{
  ℕ, ◌+◌, ◌-◌, ◌*◌, ◌/◌, ◌%◌, ◌^◌, ◌≤◌, ◌<◌, ◌≡◌, max, refl, ap, arith, Bool, true, false, ltb, leb,
  ◌==◌, le→leb, le→ltb, lt→leb, ne→==, dec_lt, minus,
}
use rquic.Pacing.{
  Timer, Pacing, SendCtl, timer_set, timer_unset, timer_update, pacing_rate_calc, pacing_on_timeout,
  pacing_time_until_send, pacing_can_write, timer_expire,
}
use native.Mathlib.Nat.{div-le_self}

-- A timer that is not set has no time, as rqc_timer_unset and rqc_timer_init leave it.
unfoldable pub Idle : Timer → Type 0
Idle timer = (timer.timer_is_set ≡ false) × (timer.expire_time ≡ 0)

-- What is waited for.
unfoldable pub delay : SendCtl → ℕ → ℕ
delay c missing = max (missing * 1000000 / pacing_rate_calc c) 1000

delay_lem :
    (c : SendCtl) (missing : ℕ)
    → missing < 2 ^ 32
    → (1000 ≤ delay c missing) × (delay c missing < 2 ^ 53)
unfolding delay
delay_lem c missing h =
    let d = div-le_self (missing * 1000000) (pacing_rate_calc c) in
    (omega arith, omega (arith, d, h))

started :
    (now wait : ℕ) (timer : Timer)
    → Idle timer
    → 1000 ≤ wait
    → now + wait < 2 ^ 64
    → timer_update now wait timer ≡ record { timer_is_set = true; expire_time = now + wait }
unfolding timer_update timer_set Idle
started now wait timer i h l =
    let whole : (now + wait) % 2 ^ 64 ≡ now + wait = omega (arith, l) in
    let t : ltb (minus (now + wait) 0) 1000 ≡ false = le→ltb _ _ (omega (arith, l, h)) in
    rw (whole, i.1, i.0, t) refl

waits :
    (c : SendCtl) (pacing : Pacing) (bytes : ℕ)
    → pacing.bytes_budget < bytes
    → pacing_time_until_send c pacing bytes ≡ (
      delay c (bytes - pacing.bytes_budget),
      record pacing { pending_budget = bytes - pacing.bytes_budget },
    )
unfolding pacing_time_until_send delay
waits c pacing bytes h =
    let t : leb bytes pacing.bytes_budget ≡ false = lt→leb _ _ h in
    rw (t, pacing_time_until_send) refl

passes :
    (c : SendCtl) (pacing : Pacing) (now bytes : ℕ)
    → pacing.timer.timer_is_set ≡ false
    → bytes ≤ pacing.bytes_budget
    → (pacing_can_write c pacing now bytes).0 ≡ true
unfolding pacing_can_write pacing_time_until_send
passes c pacing now bytes i h =
    let t : leb bytes pacing.bytes_budget ≡ true = le→leb _ _ h in
    rw (i, t, pacing_time_until_send, pacing_can_write) refl

held_back :
    (c : SendCtl) (pacing : Pacing) (now bytes : ℕ)
    → Idle pacing.timer
    → pacing.bytes_budget < bytes
    → bytes < 2 ^ 32
    → now < 2 ^ 63
    → pacing_can_write c pacing now bytes ≡ (
      false,
      record pacing {
        pending_budget = bytes - pacing.bytes_budget;
        timer = record {
          timer_is_set = true;
          expire_time = now + delay c (bytes - pacing.bytes_budget);
        };
      },
    )
unfolding pacing_can_write
held_back c pacing now bytes i h small soon =
    let d = delay_lem c (bytes - pacing.bytes_budget) (omega (arith, small)) in
    let t : (delay c (bytes - pacing.bytes_budget) == 0) ≡ false =
      ne→== _ _ (λ e. omega (arith, e, d)) in
    let s =
      started now (delay c (bytes - pacing.bytes_budget)) pacing.timer i d.0
        (omega (arith, d.1, soon)) in
    let off : pacing.timer.timer_is_set ≡ false = unfold Idle in i.0 in
    rw (waits c pacing bytes h, s, off, t) refl

fired :
    (c : SendCtl) (pacing : Pacing) (later clock clock' bytes : ℕ)
    → pacing.timer.timer_is_set ≡ true
    → pacing.timer.expire_time ≤ later
    → bytes ≤ pacing.bytes_budget + pacing.pending_budget
    → pacing.bytes_budget + pacing.pending_budget < 2 ^ 32
    → (pacing_can_write c (timer_expire c pacing later clock) clock' bytes).0 ≡ true
unfolding timer_expire pacing_on_timeout timer_unset
fired c pacing later clock clock' bytes on due enough small =
    let t : leb pacing.timer.expire_time later ≡ true = le→leb _ _ due in
    rw (t, on, timer_expire) (passes c _ clock' bytes refl (omega (arith, enough, small)))

-- When the pacing timer is idle, the time is below 2 ^ 63, the bytes are below 2 ^ 32 and the rate is
-- not 0, a packet that rqc_pacing_can_write refuses has set the timer to at least a millisecond from
-- now; and once rqc_timer_expire runs at that time or later, with any rates and clocks then,
-- rqc_pacing_can_write lets a packet of that size through.
pub pacing_can_write_later :
    (c c' : SendCtl) (pacing : Pacing) (now bytes later clock clock' : ℕ)
    → Idle pacing.timer
    → bytes < 2 ^ 32
    → now < 2 ^ 63
    → 1 ≤ pacing_rate_calc c
    → (pacing_can_write c pacing now bytes).0 ≡ false
    → (pacing_can_write c pacing now bytes).1.timer.expire_time ≤ later
    → ((pacing_can_write c pacing now bytes).1.timer.timer_is_set ≡ true)
      × (now + 1000 ≤ (pacing_can_write c pacing now bytes).1.timer.expire_time)
      × ((pacing_can_write c'
            (timer_expire c' (pacing_can_write c pacing now bytes).1 later clock)
            clock'
            bytes).0
          ≡ true)
pacing_can_write_later c c' pacing now bytes later clock clock' i small soon rate refused due =
    elim (dec_lt pacing.bytes_budget bytes) [
      | no h ↦ absurd (cc (refused, passes c pacing now bytes off (omega (arith, h))))
      | yes h ↦
          let e = held_back c pacing now bytes i h small soon in
          let d = delay_lem c (bytes - pacing.bytes_budget) (omega (arith, small)) in
          let at = ap (λ (r : Bool × Pacing). r.1.timer.expire_time) e in
          rw e (
            refl,
            omega (arith, d.0),
            fired c' _ later clock clock' bytes refl (omega (arith, at, due)) (omega (arith, h))
                (omega (arith, h, small)),
          )
    ]
  where
    off : pacing.timer.timer_is_set ≡ false
    off = unfold Idle in i.0
