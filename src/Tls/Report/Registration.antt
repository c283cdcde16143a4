-- ===== src/Tls/Report/Registration.antt =====
-- The collectors of a TLS connection are registered once.
use big_blackbox_exporter.Base.{ℕ, ◌≡◌, refl, Bool, true, false, List, String, Bool-cases, inl, inr}
use big_blackbox_exporter.Float64.{Float64}
use big_blackbox_exporter.Tls.{Time, ConnectionState}
use big_blackbox_exporter.Tls.Report.{report_connection, set_last_chain_info}
use big_blackbox_exporter.Metrics.{Registry, contains, must_register, must_register_all}
use big_blackbox_exporter.Metrics.Inversion.{Partly, Partly-or_fault, Partly-weaken}

module _ {V : Type 0} where
  abbrev pub has_expiry : Registry V → Bool
  has_expiry reg = contains "probe_ssl_earliest_cert_expiry" reg.registered

  -- The gauge of the expiry was not registered before, and is after.
  abbrev pub Registered : Registry V → Registry V → Type 0
  Registered reg reg' = (has_expiry reg ≡ false) × (has_expiry reg' ≡ true)

module _ (fl : Float64) (unix : Time → fl.Num) (fingerprint : List ℕ → String) where
  open fl use {Num}

  set_last_chain_info-keeps :
      (tls : ConnectionState) (reg : Registry Num)
      → has_expiry reg ≡ true
      → Partly (λ _ reg'. has_expiry reg' ≡ true) (set_last_chain_info fl unix fingerprint tls reg)
  set_last_chain_info-keeps tls reg h =
      let P : Unit {0} → Registry Num → Type 0 = λ _ reg'. has_expiry reg' ≡ true in
      Partly-or_fault P _ _ reg λ a _.
        Partly-or_fault P _ _ reg
          λ b _. Partly-or_fault P _ _ reg λ c _. Partly-or_fault P _ _ reg λ d _. h

  pub report_connection-Registered :
      (tls : ConnectionState) (reg : Registry Num)
      → Partly (λ _. Registered reg) (report_connection fl unix fingerprint tls reg)
  unfolding report_connection must_register_all must_register
  report_connection-Registered tls reg = elim (Bool-cases (has_expiry reg)) [
    | inl twice ↦ rw twice tt
    | inr new ↦ elim (Bool-cases (contains "probe_tls_version_info" reg.registered)) [
      | inl twice ↦ rw (new, twice) tt
      | inr new₁ ↦
          elim (Bool-cases
            (contains "probe_ssl_last_chain_expiry_timestamp_seconds" reg.registered)) [
              | inl twice ↦ rw (new, new₁, twice) tt
              | inr new₂ ↦ elim (Bool-cases (contains "probe_ssl_last_chain_info" reg.registered)) [
                | inl twice ↦ rw (new, new₁, new₂, twice) tt
                | inr new₃ ↦
                    rw (new, new₁, new₂, new₃)
                      (Partly-weaken (λ _ reg'. has_expiry reg' ≡ true) _ _
                        (set_last_chain_info-keeps tls _ refl) λ u reg' h. (new, h))
              ]
            ]
    ]
  ]
