-- ===== src/Host/Wifi/Scan.antt =====
-- What a scan reports to its callback.
use dark_os_svc_kit.Common.{
  ℕ, suc, ◌+◌, ◌≤◌, ◌≡◌, refl, subst, ◌⊎◌, inl, inr, Bool, true, false, List, [], ◌∷◌, arith,
  if◌then◌else◌, Bool-cases, length, take, ok,
}
use dark_os_svc_kit.Common.Int.{ℤ}
use dark_os_svc_kit.Host.Wifi.{AccessPoint, Priv, fake_aps, timed_out, scan_from, host_wifi_scan}

plus_zero : (i : ℕ) → i ≡ i + 0
plus_zero i = omega arith

plus_suc : (i n : ℕ) → i + 1 + n ≡ i + suc n
plus_suc i n = omega arith

module _ {C : Type 0} (cb : C → AccessPoint → C × Bool) where
  -- The callback's context after it was given some access points, in their order.
  pub reported : List AccessPoint → C → C
  reported [] ctx = ctx
  reported (ap ∷ aps) ctx = reported aps (cb ctx ap).0

  -- Whether it has asked to stop at one of them.
  pub stopped : List AccessPoint → C → Bool
  stopped [] ctx = false
  stopped (ap ∷ aps) ctx = if (cb ctx ap).1 then true else stopped aps (cb ctx ap).0

  -- Why a scan ends after `n` reports of a table: the table is at its end, the time is over, or a
  -- report asked to stop.
  pub record Ends (elapsed : ℕ → ℕ) (timeout_ms : ℤ) (i : ℕ) (aps : List AccessPoint) (ctx : C)
      (n : ℕ) : Type 0 where
    pub within : n ≤ length aps
    pub because :
        (n ≡ length aps)
        ⊎ (timed_out timeout_ms (elapsed (i + n)) ≡ true)
        ⊎ (stopped (take n aps) ctx ≡ true)

  scan_from-Ends :
      (elapsed : ℕ → ℕ) (timeout_ms : ℤ) (i : ℕ) (aps : List AccessPoint) (ctx : C)
      → (n : ℕ) × (scan_from cb elapsed timeout_ms i aps ctx ≡ reported (take n aps) ctx)
        × Ends elapsed timeout_ms i aps ctx n
  unfolding scan_from reported stopped
  scan_from-Ends elapsed timeout_ms i [] ctx =
      (0, refl, record { within = omega arith; because = inl refl })
  scan_from-Ends elapsed timeout_ms i (ap ∷ aps) ctx =
      elim (Bool-cases (timed_out timeout_ms (elapsed i))) [
        | inl late ↦ (
          0,
          rw late,
          record {
            within = omega arith;
            because =
                inr (inl (subst (λ k. timed_out timeout_ms (elapsed k) ≡ true) (plus_zero i) late));
          },
        )
        | inr more ↦ elim (Bool-cases (cb ctx ap).1) [
          | inl stop ↦
              (1, rw (more, stop), record { within = omega arith; because = inr (inr (rw stop)) })
          | inr on ↦
              let (n, e, ends) = scan_from-Ends elapsed timeout_ms (i + 1) aps (cb ctx ap).0 in
              (
                suc n,
                rw (more, on) e,
                record { within = omega (arith, ends.within); because = step n on ends.because },
              )
        ]
      ]
    where
      step :
          (n : ℕ)
          → (cb ctx ap).1 ≡ false
          → (n ≡ length aps)
            ⊎ (timed_out timeout_ms (elapsed (i + 1 + n)) ≡ true)
            ⊎ (stopped (take n aps) (cb ctx ap).0 ≡ true)
          → (suc n ≡ suc (length aps))
            ⊎ (timed_out timeout_ms (elapsed (i + suc n)) ≡ true)
            ⊎ (stopped (take (suc n) (ap ∷ aps)) ctx ≡ true)
      step n on (inl end) = inl (cc)
      step n on (inr (inl late)) =
          inr (inl (subst (λ k. timed_out timeout_ms (elapsed k) ≡ true) (plus_suc i n) late))
      step n on (inr (inr stop)) = inr (inr (rw on stop))

  -- A scan of an enabled device reports the table's access points from the first on, each once and in
  -- order, until the table ends, the time is over or the callback asks to stop.
  pub scan_prefix :
      (p : Priv) (elapsed : ℕ → ℕ) (timeout_ms : ℤ) (ctx : C)
      → p.enabled ≡ true
      → (n : ℕ) × (host_wifi_scan cb p true elapsed timeout_ms ctx
          ≡ (reported (take n fake_aps) ctx, ok tt))
        × Ends elapsed timeout_ms 0 fake_aps ctx n
  unfolding host_wifi_scan
  scan_prefix p elapsed timeout_ms ctx on =
      let (n, e, ends) = scan_from-Ends elapsed timeout_ms 0 fake_aps ctx in (n, rw (on, e), ends)
