-- ===== src/Console/Line.antt =====
-- Every layout prints text, so the status line fits.
use dirtybird_c_miner.Base.{ℕ, suc, ◌≤◌, ◌≡◌, refl, Bool, true, ◌++◌, length, All, ℤ, pos, arith}
use dirtybird_c_miner.Text.Chars.{codes}
use dirtybird_c_miner.Console.{
  Printf, DlunaStatus, clock, tier_full, counters, tier_medium, tier_narrow, tier_compact,
  tier_minimal, tiers, render_tier, format_status,
}
use dirtybird_c_miner.Console.Clamp.{outside, ansi_clamp}
use dirtybird_c_miner.Console.Columns.{columns, ansi_clamp-columns, length-ansi_clamp}
use dirtybird_c_miner.Console.Fits.{
  printable, printable-append, render_tier-Sound, first_fitting-fits,
}

-- The C library prints numbers without control characters.
pub record PrintsText {ℓ} {D : Type ℓ} (f : Printf D) : Type ℓ where
  pub f2 : (d : D) → printable (f.f2 d) ≡ true
  pub lld : (n : ℤ) → printable (f.lld n) ≡ true
  pub d02 : (n : ℤ) → printable (f.d02 n) ≡ true

module _ {ℓ} {D : Type ℓ} (f : Printf D) (h : PrintsText f) (s : DlunaStatus D)
    (d : printable s.diff ≡ true) where
  clock_ok : printable (clock f s) ≡ true
  clock_ok =
      printable-append (f.d02 s.hh) _ (h.d02 s.hh)
        (printable-append (f.d02 s.mm) _ (h.d02 s.mm) (h.d02 s.ss))

  rate_ok : printable (f.f2 s.rate ++ codes " KH/s") ≡ true
  rate_ok = printable-append (f.f2 s.rate) _ (h.f2 s.rate) refl

  full_avg_ok : printable (f.f2 s.avg ++ codes " KH/s avg") ≡ true
  full_avg_ok = printable-append (f.f2 s.avg) _ (h.f2 s.avg) refl

  avg_ok : printable (f.f2 s.avg ++ codes " avg") ≡ true
  avg_ok = printable-append (f.f2 s.avg) _ (h.f2 s.avg) refl

  tier_full_ok : All (λ x. printable x.1 ≡ true) (tier_full f s)
  unfolding tier_full
  tier_full_ok = ground (
    arith,
    rate_ok,
    full_avg_ok,
    h.lld s.height,
    h.lld s.accepted,
    h.lld s.blocks,
    h.lld s.rejected,
    d,
    clock_ok,
  )

  tier_medium_ok : All (λ x. printable x.1 ≡ true) (tier_medium f s)
  unfolding tier_medium counters
  tier_medium_ok = ground (
    arith,
    rate_ok,
    avg_ok,
    h.lld s.height,
    h.lld s.accepted,
    h.lld s.blocks,
    h.lld s.rejected,
    d,
    clock_ok,
  )

  tier_narrow_ok : All (λ x. printable x.1 ≡ true) (tier_narrow f s)
  unfolding tier_narrow counters
  tier_narrow_ok = ground (
    arith,
    rate_ok,
    h.lld s.height,
    h.lld s.accepted,
    h.lld s.blocks,
    h.lld s.rejected,
    d,
    clock_ok,
  )

  tier_compact_ok : All (λ x. printable x.1 ≡ true) (tier_compact f s)
  unfolding tier_compact
  tier_compact_ok =
      ground (
        arith,
        rate_ok,
        h.lld s.height,
        h.lld s.accepted,
        h.lld s.blocks,
        h.lld s.rejected,
        clock_ok,
      )

  tier_minimal_ok : All (λ x. printable x.1 ≡ true) (tier_minimal f s)
  unfolding tier_minimal
  tier_minimal_ok = ground (arith, rate_ok, h.lld s.accepted, h.lld s.blocks)

  tiers_ok : All (λ fields. All (λ x. printable x.1 ≡ true) fields) (tiers f s)
  unfolding tiers
  tiers_ok =
      (tier_full_ok, (tier_medium_ok, (tier_narrow_ok, (tier_compact_ok, (tier_minimal_ok, tt)))))

  -- On a console of `suc n` columns the status line takes at most `n`, and in a buffer of `suc room`
  -- bytes it leaves one for the terminator, whatever the layouts' numbers print, as long as they and
  -- the difficulty's text hold no control character.
  pub format_status_fits :
      (tty : Bool) (room n : ℕ)
      → let out = format_status f tty (suc room) s (pos (suc n)) in
        (columns outside out ≤ n) × (length out ≤ room)
  unfolding format_status
  format_status_fits tty room n =
      let minimal = (render_tier tty (suc room) (tier_minimal f s)).b in
      first_fitting-fits tty room n (tiers f s) (ansi_clamp minimal n) tiers_ok (
        ansi_clamp-columns minimal n,
        omega (
          arith,
          length-ansi_clamp minimal n,
          (render_tier-Sound tty room (tier_minimal f s) tier_minimal_ok).size,
        ),
      )
