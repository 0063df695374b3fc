-- ===== src/Rg/Day.antt =====
-- The settlement day of pkg/rg/rg.go.
use f.Prelude.{
  ◌+◌, ◌-◌, ◌*◌, ◌/◌, ◌≡◌, arith, ℤ, pos, negsuc, ◌≤ℤ◌, ◌<ℤ◌, ◌+ℤ◌, ◌-ℤ◌, ◌*ℤ◌, false, +ℤ_parts,
  -ℤ_parts, eqb_ℤ_sound, Bool-cases, inl, inr, ◌⊎◌, eqb_ℤ,
}
use f.Rg.{PlayerRg, RgLimits, floor_day, day_start_of, rollover}

floor_day_bounds : (t : ℤ) → (floor_day t ≤ℤ t) × (t <ℤ floor_day t +ℤ pos 86400000)
unfolding floor_day
floor_day_bounds (pos n) = omega (arith, +ℤ_parts (pos (n / 86400000 * 86400000)) (pos 86400000))
floor_day_bounds (negsuc n) =
    omega (arith, +ℤ_parts (negsuc ((n / 86400000 + 1) * 86400000 - 1)) (pos 86400000))

-- The day holds the instant, whatever the offset of the zone.
pub day_start_of_bounds :
    (now offset : ℤ)
    → (day_start_of now offset ≤ℤ now) × (now <ℤ day_start_of now offset +ℤ pos 86400000)
unfolding day_start_of
day_start_of_bounds now offset =
    let shift = offset *ℤ pos 60000 in
    let day = floor_day (now +ℤ shift) in
    omega (
      arith,
      floor_day_bounds (now +ℤ shift),
      +ℤ_parts now shift,
      -ℤ_parts day shift,
      +ℤ_parts (day -ℤ shift) (pos 86400000),
      +ℤ_parts day (pos 86400000),
    )

-- After a rollover the state's day holds the instant; the totals are those of before, when the
-- day had already begun, and zero when it is new, and a second rollover does nothing.
pub rollover_lem :
    (state : PlayerRg) (now : ℤ) (cfg : RgLimits)
    → let after = (rollover state now cfg).0 in
      (after.day_start ≤ℤ now)
      × (now <ℤ after.day_start +ℤ pos 86400000)
      × ((after ≡ state) ⊎ ((after.daily_bet ≡ pos 0) × (after.daily_win ≡ pos 0)))
      × (rollover after now cfg ≡ (after, false))
unfolding rollover
rollover_lem state now cfg =
    let start = day_start_of now cfg.reset_offset_minutes in
    let (low, high) = day_start_of_bounds now cfg.reset_offset_minutes in
    elim (Bool-cases (eqb_ℤ state.day_start start)) [
      | inl same ↦
          let e = eqb_ℤ_sound state.day_start start same in
          (
            ground (arith, same, e, low),
            rw same (rw e high),
            ground (arith, same),
            ground (arith, same),
          )
      | inr new ↦ (ground (arith, new, low), rw new high, ground (arith, new), ground (arith, new))
    ]
