-- ===== src/Tls/Tests.antt =====
-- The theorems on expiry times at concrete certificates.
use big_blackbox_exporter.Base.{◌≡◌, refl, [], ◌∷◌, ℕ}
use big_blackbox_exporter.Base.Int.{pos}
use big_blackbox_exporter.Tls.{
  Certificate, ConnectionState, get_earliest_cert_expiry, get_last_chain_expiry,
}
use big_blackbox_exporter.Tls.Expiry.{IsEarliest, get_earliest_cert_expiry-IsEarliest}

abbrev cert : ℕ → Certificate
cert t = record { raw = []; subject = "s"; issuer = "i"; dns_names = []; not_after = pos t }

abbrev state : ConnectionState
state = record {
  version = 0x0304;
  peer_certificates = cert 9 ∷ cert 0 ∷ cert 4 ∷ [];
  verified_chains = (cert 9 ∷ cert 4 ∷ []) ∷ (cert 7 ∷ []) ∷ [];
}

expiry_tests : (get_earliest_cert_expiry state ≡ pos 4) × (get_last_chain_expiry state ≡ pos 7)
unfolding get_earliest_cert_expiry get_last_chain_expiry
expiry_tests = (refl, refl)

get_earliest_cert_expiry-IsEarliest_example :
    IsEarliest (get_earliest_cert_expiry state) state.peer_certificates
get_earliest_cert_expiry-IsEarliest_example = get_earliest_cert_expiry-IsEarliest state
