-- ===== src/Broker/LicenseText/RoundTrip.antt =====
-- Reading back a licence that was written.
use plank_libvirtualhid.Common.{
  ℕ, ◌≤◌, ◌<◌, ◌≡◌, refl, sym, ap, subst, true, [], length, Text, bytes, arith,
}
use plank_libvirtualhid.Broker.Clock.{uint64_max}
use plank_libvirtualhid.Broker.License.{PolarLicenseState, no_license}
use plank_libvirtualhid.Broker.LicenseText.{
  decimal, line, serialize_license_state, value_or_zero, set_field, deserialize_license_state,
}
use plank_libvirtualhid.Broker.LicenseText.Decimal.{parse_uint64-decimal}
use plank_libvirtualhid.Broker.LicenseText.Lines.{
  without_byte, without_byte-digits, Reads, Reads-nil, Reads-line,
}

-- A licence whose texts have no line break and whose numbers fit their words.
pub record IsStorable (l : PolarLicenseState) : Type 0 where
  pub provider : without_byte b'\n' l.provider ≡ true
  pub license_key : without_byte b'\n' l.license_key ≡ true
  pub activation_id : without_byte b'\n' l.activation_id ≡ true
  pub license_key_id : without_byte b'\n' l.license_key_id ≡ true
  pub license_status : without_byte b'\n' l.license_status ≡ true
  pub organization_id : without_byte b'\n' l.organization_id ≡ true
  pub benefit_id : without_byte b'\n' l.benefit_id ≡ true
  pub customer_email : without_byte b'\n' l.customer_email ≡ true
  pub boot_marker : without_byte b'\n' l.boot_marker ≡ true
  pub activation_limit : l.activation_limit < 4294967296
  pub validated_at : l.validated_at ≤ uint64_max
  pub validated_uptime_ms : l.validated_uptime_ms ≤ uint64_max

pub set_limit :
    (n : ℕ) (s : PolarLicenseState)
    → n < 4294967296
    → set_field (bytes "activation_limit") (decimal n) s ≡ record s { activation_limit = n }
unfolding set_field value_or_zero
set_limit n s h =
    rw (parse_uint64-decimal n (omega arith))
      (ap (λ m. record s { activation_limit = m }) (omega arith))

pub set_time :
    (n : ℕ) (s : PolarLicenseState)
    → n ≤ uint64_max
    → set_field (bytes "validated_at") (decimal n) s ≡ record s { validated_at = n }
unfolding set_field value_or_zero
set_time n s h = rw (parse_uint64-decimal n h) refl

pub set_uptime :
    (n : ℕ) (s : PolarLicenseState)
    → n ≤ uint64_max
    → set_field (bytes "validated_uptime_ms") (decimal n) s ≡ record s { validated_uptime_ms = n }
unfolding set_field value_or_zero
set_uptime n s h = rw (parse_uint64-decimal n h) refl

pub Reads-number :
    (key rest : Text) (n : ℕ) (state after final : PolarLicenseState)
    → without_byte b'=' key ≡ true
    → without_byte b'\n' key ≡ true
    → set_field key (decimal n) state ≡ after
    → Reads rest after final
    → Reads (line key (decimal n) rest) state final
unfolding decimal
Reads-number key rest n state after final k b e r =
    Reads-line key (decimal n) rest state final k b (without_byte-digits 20 n [] refl)
      (subst (λ s. Reads rest s final) (sym e) r)

-- The last four lines, after the first eight fields.
pub Reads-last :
    (l s : PolarLicenseState)
    → IsStorable l
    → Reads
        (line (bytes "activation_limit") (decimal l.activation_limit) (
          line (bytes "validated_at") (decimal l.validated_at) (
            line
              (bytes "boot_marker")
              l.boot_marker
              (line (bytes "validated_uptime_ms") (decimal l.validated_uptime_ms) []))))
        s
        (record s {
          activation_limit = l.activation_limit;
          validated_at = l.validated_at;
          boot_marker = l.boot_marker;
          validated_uptime_ms = l.validated_uptime_ms;
        })
unfolding set_field
Reads-last l s h =
    Reads-number (bytes "activation_limit")
      (line (bytes "validated_at") (decimal l.validated_at) (
        line (bytes "boot_marker") l.boot_marker
          (line (bytes "validated_uptime_ms") (decimal l.validated_uptime_ms) [])))
      l.activation_limit s (record s { activation_limit = l.activation_limit }) _ refl refl
      (set_limit l.activation_limit s h.activation_limit)
      (Reads-number (bytes "validated_at")
        (line (bytes "boot_marker") l.boot_marker
          (line (bytes "validated_uptime_ms") (decimal l.validated_uptime_ms) []))
        l.validated_at (record s { activation_limit = l.activation_limit })
        (record s { activation_limit = l.activation_limit; validated_at = l.validated_at }) _ refl
        refl
        (set_time l.validated_at (record s { activation_limit = l.activation_limit })
          h.validated_at)
        (Reads-line (bytes "boot_marker") l.boot_marker
          (line (bytes "validated_uptime_ms") (decimal l.validated_uptime_ms) []) _ _ refl refl
          h.boot_marker
          (Reads-number (bytes "validated_uptime_ms") [] l.validated_uptime_ms
            (record s {
              activation_limit = l.activation_limit;
              validated_at = l.validated_at;
              boot_marker = l.boot_marker;
            })
            _ _ refl refl
            (set_uptime l.validated_uptime_ms
              (record s {
                activation_limit = l.activation_limit;
                validated_at = l.validated_at;
                boot_marker = l.boot_marker;
              })
              h.validated_uptime_ms)
            (Reads-nil (record s {
              activation_limit = l.activation_limit;
              validated_at = l.validated_at;
              boot_marker = l.boot_marker;
              validated_uptime_ms = l.validated_uptime_ms;
            })))))

-- A licence whose texts have no line break and whose numbers fit their words is read back as it was
-- written.
pub deserialize_license_state-serialize :
    (l : PolarLicenseState)
    → IsStorable l
    → deserialize_license_state (serialize_license_state l) ≡ l
unfolding deserialize_license_state serialize_license_state set_field Reads
deserialize_license_state-serialize l h =
    (Reads-line (bytes "provider") l.provider
        (line (bytes "license_key") l.license_key (
          line (bytes "activation_id") l.activation_id (
            line (bytes "license_key_id") l.license_key_id (
              line (bytes "license_status") l.license_status (
                line (bytes "organization_id") l.organization_id (
                  line (bytes "benefit_id") l.benefit_id (
                    line (bytes "customer_email") l.customer_email (
                      line (bytes "activation_limit") (decimal l.activation_limit) (
                        line (bytes "validated_at") (decimal l.validated_at) (
                          line (bytes "boot_marker") l.boot_marker (
                            line (bytes "validated_uptime_ms") (decimal l.validated_uptime_ms)
                              [])))))))))))
        no_license _ refl refl h.provider
        (Reads-line (bytes "license_key") l.license_key
          (line (bytes "activation_id") l.activation_id (
            line (bytes "license_key_id") l.license_key_id (
              line (bytes "license_status") l.license_status (
                line (bytes "organization_id") l.organization_id (
                  line (bytes "benefit_id") l.benefit_id (
                    line (bytes "customer_email") l.customer_email (
                      line (bytes "activation_limit") (decimal l.activation_limit) (
                        line (bytes "validated_at") (decimal l.validated_at) (
                          line (bytes "boot_marker") l.boot_marker (
                            line (bytes "validated_uptime_ms") (decimal l.validated_uptime_ms)
                              []))))))))))
          (record no_license { provider = l.provider }) _ refl refl h.license_key
          (Reads-line (bytes "activation_id") l.activation_id
            (line (bytes "license_key_id") l.license_key_id (
              line (bytes "license_status") l.license_status (
                line (bytes "organization_id") l.organization_id (
                  line (bytes "benefit_id") l.benefit_id (
                    line (bytes "customer_email") l.customer_email (
                      line (bytes "activation_limit") (decimal l.activation_limit) (
                        line (bytes "validated_at") (decimal l.validated_at) (
                          line (bytes "boot_marker") l.boot_marker (
                            line (bytes "validated_uptime_ms") (decimal l.validated_uptime_ms)
                              [])))))))))
            (record no_license { provider = l.provider; license_key = l.license_key }) _ refl refl
            h.activation_id
            (Reads-line (bytes "license_key_id") l.license_key_id
              (line (bytes "license_status") l.license_status (
                line (bytes "organization_id") l.organization_id (
                  line (bytes "benefit_id") l.benefit_id (
                    line (bytes "customer_email") l.customer_email (
                      line (bytes "activation_limit") (decimal l.activation_limit) (
                        line (bytes "validated_at") (decimal l.validated_at) (
                          line (bytes "boot_marker") l.boot_marker (
                            line (bytes "validated_uptime_ms") (decimal l.validated_uptime_ms)
                              []))))))))
              (record no_license {
                provider = l.provider;
                license_key = l.license_key;
                activation_id = l.activation_id;
              })
              _ refl refl h.license_key_id
              (Reads-line (bytes "license_status") l.license_status
                (line (bytes "organization_id") l.organization_id (
                  line (bytes "benefit_id") l.benefit_id (
                    line (bytes "customer_email") l.customer_email (
                      line (bytes "activation_limit") (decimal l.activation_limit) (
                        line (bytes "validated_at") (decimal l.validated_at) (
                          line (bytes "boot_marker") l.boot_marker (
                            line (bytes "validated_uptime_ms") (decimal l.validated_uptime_ms)
                              [])))))))
                (record no_license {
                  provider = l.provider;
                  license_key = l.license_key;
                  activation_id = l.activation_id;
                  license_key_id = l.license_key_id;
                })
                _ refl refl h.license_status
                (Reads-line (bytes "organization_id") l.organization_id
                  (line (bytes "benefit_id") l.benefit_id (
                    line (bytes "customer_email") l.customer_email (
                      line (bytes "activation_limit") (decimal l.activation_limit) (
                        line (bytes "validated_at") (decimal l.validated_at) (
                          line (bytes "boot_marker") l.boot_marker (
                            line (bytes "validated_uptime_ms") (decimal l.validated_uptime_ms)
                              []))))))
                  (record no_license {
                    provider = l.provider;
                    license_key = l.license_key;
                    activation_id = l.activation_id;
                    license_key_id = l.license_key_id;
                    license_status = l.license_status;
                  })
                  _ refl refl h.organization_id
                  (Reads-line (bytes "benefit_id") l.benefit_id
                    (line (bytes "customer_email") l.customer_email (
                      line (bytes "activation_limit") (decimal l.activation_limit) (
                        line (bytes "validated_at") (decimal l.validated_at) (
                          line (bytes "boot_marker") l.boot_marker (
                            line (bytes "validated_uptime_ms") (decimal l.validated_uptime_ms)
                              [])))))
                    (record no_license {
                      provider = l.provider;
                      license_key = l.license_key;
                      activation_id = l.activation_id;
                      license_key_id = l.license_key_id;
                      license_status = l.license_status;
                      organization_id = l.organization_id;
                    })
                    _ refl refl h.benefit_id
                    (Reads-line (bytes "customer_email") l.customer_email
                      (line (bytes "activation_limit") (decimal l.activation_limit) (
                        line (bytes "validated_at") (decimal l.validated_at) (
                          line (bytes "boot_marker") l.boot_marker (
                            line (bytes "validated_uptime_ms") (decimal l.validated_uptime_ms)
                              []))))
                      (record no_license {
                        provider = l.provider;
                        license_key = l.license_key;
                        activation_id = l.activation_id;
                        license_key_id = l.license_key_id;
                        license_status = l.license_status;
                        organization_id = l.organization_id;
                        benefit_id = l.benefit_id;
                      })
                      _ refl refl h.customer_email
                      (Reads-last l
                        (record no_license {
                          provider = l.provider;
                          license_key = l.license_key;
                          activation_id = l.activation_id;
                          license_key_id = l.license_key_id;
                          license_status = l.license_status;
                          organization_id = l.organization_id;
                          benefit_id = l.benefit_id;
                          customer_email = l.customer_email;
                        })
                        h)))))))))
      (length (serialize_license_state l)) (omega arith)
