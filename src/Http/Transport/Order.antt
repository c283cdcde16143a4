-- ===== src/Http/Transport/Order.antt =====
-- The order of the hooks of a round trip, and what it makes of the traces.
use big_blackbox_exporter.Base.{
  ℕ, ◌+◌, ◌≡◌, refl, Bool, true, false, List, [], ◌∷◌, ◌++◌, ◌||◌, ◌∙◌, length, length-append,
  String, Option, some, none, str_eq, arith, Bool-cases, inl, inr, All,
}
use big_blackbox_exporter.Tls.{Time, is_zero}
use big_blackbox_exporter.Http.Transport.{
  Trace, new_trace, Transport, new_transport, traces, round_trip, Hook, dns_start, dns_done,
  connect_start, connect_done, got_conn, got_first_response_byte, tls_handshake_start,
  tls_handshake_done, on_trace, hook,
}

-- A call of `RoundTrip`, or a hook with its time.
pub data Step : Type 0 where
  request : (scheme host : String) → Step
  event : Hook → Time → Step

abbrev then_run : Option Transport → (Transport → Option Transport) → Option Transport
then_run none k = none
then_run (some t) k = k t

-- The hooks and round trips one after another; none is a nil dereference.
unfoldable pub run : List Step → Transport → Option Transport
unfolding round_trip hook
run [] t = some t
run (request scheme host ∷ steps) t = run steps (round_trip scheme host t).0
run (event h now ∷ steps) t = then_run (hook h now t) (run steps)

-- The hooks that come before a connection is there.
abbrev pub precedes : Hook → Bool
precedes dns_done = true
precedes connect_start = true
precedes _ = false

abbrev pub can_follow : Bool → Hook → Bool
can_follow started got_conn = started
can_follow started _ = true

-- Each `GotConn` comes after a `DNSDone` or a `ConnectStart` of its round trip, where `started` is
-- that one has come, and no hook reads the zero time.
abbrev pub Connects : Bool → List Step → Type 0
Connects started [] = Unit
Connects started (request _ _ ∷ steps) = Connects false steps
Connects started (event h now ∷ steps) =
    (is_zero now ≡ false) × (can_follow started h ≡ true) × Connects (started || precedes h) steps

abbrev pub requests : List Step → ℕ
requests [] = 0
requests (request _ _ ∷ steps) = 1 + requests steps
requests (event _ _ ∷ steps) = requests steps

-- A trace that has a connection has `dns_done`.
abbrev pub IsConnected : Trace → Type 0
IsConnected t = is_zero t.got_conn ≡ false → is_zero t.dns_done ≡ false

on_trace-IsConnected :
    (started : Bool) (h : Hook) (now : Time) (t : Trace)
    → IsConnected t
    → (started ≡ true → is_zero t.dns_done ≡ false)
    → is_zero now ≡ false
    → can_follow started h ≡ true
    → IsConnected (on_trace h now t)
      × ((started || precedes h) ≡ true → is_zero (on_trace h now t).dns_done ≡ false)
unfolding on_trace
on_trace-IsConnected started dns_start now t c s z f = (c, λ h. ground arith)
on_trace-IsConnected started dns_done now t c s z f = (λ _. z, λ _. z)
on_trace-IsConnected started connect_start now t c s z f = elim (Bool-cases (is_zero t.dns_done)) [
  | inl unset ↦ rw unset (λ _. z, λ _. z)
  | inr set ↦ rw set (λ _. set, λ _. set)
]
on_trace-IsConnected started connect_done now t c s z f = (c, λ h. ground arith)
on_trace-IsConnected started got_conn now t c s z f = (λ _. s f, λ h. ground arith)
on_trace-IsConnected started got_first_response_byte now t c s z f = (c, λ h. ground arith)
on_trace-IsConnected started tls_handshake_start now t c s z f = (c, λ h. ground arith)
on_trace-IsConnected started tls_handshake_done now t c s z f = (c, λ h. ground arith)

-- What the transport `t` is after `n` round trips of which the first was to `host`.
pub record IsTraced (host : String) (n : ℕ) (t : Transport) : Type 0 where
  pub connected : All IsConnected (traces t)
  pub one_each : length (traces t) ≡ n
  pub first : t.first_host ≡ host

All-concat :
    (ts us : List Trace) → All IsConnected ts → All IsConnected us → All IsConnected (ts ++ us)
All-concat [] us h k = k
All-concat (t ∷ ts) us (h, hs) k = (h, All-concat ts us hs k)

run-IsTraced_from :
    (host : String) (started : Bool) (steps : List Step) (earlier : List Trace) (t : Trace)
    → str_eq host "" ≡ false
    → All IsConnected earlier
    → IsConnected t
    → (started ≡ true → is_zero t.dns_done ≡ false)
    → Connects started steps
    → (u : Transport) × (run steps
          (record { first_host = host; earlier = earlier; current = some t })
        ≡ some u)
      × IsTraced host (length earlier + 1 + requests steps) u
unfolding run round_trip hook
run-IsTraced_from host started [] earlier t named e c s h = (
  _,
  refl,
  record {
    connected = All-concat earlier (t ∷ []) e (c, tt);
    one_each = omega (arith, length-append earlier (t ∷ []));
    first = refl;
  },
)
run-IsTraced_from host started (request scheme other ∷ steps) earlier t named e c s h =
    let (u, ran, traced) =
      run-IsTraced_from host false steps (earlier ++ t ∷ []) (new_trace (str_eq scheme "https"))
        named (All-concat earlier (t ∷ []) e (c, tt)) (λ k. cc) (λ k. cc) h in
    (
      u,
      rw named ran,
      record {
        connected = traced.connected;
        one_each = traced.one_each ∙ omega (arith, length-append earlier (t ∷ []));
        first = traced.first;
      },
    )
run-IsTraced_from host started (event k now ∷ steps) earlier t named e c s (z, f, h) =
    let (c', s') = on_trace-IsConnected started k now t c s z f in
    run-IsTraced_from host (started || precedes k) steps earlier (on_trace k now t) named e c' s' h

-- A request of the client that starts with a round trip to a host, where each `GotConn` comes
-- after a `DNSDone` or a `ConnectStart` of its round trip and no hook reads the zero time, never
-- dereferences a nil trace. It has one trace for each round trip, the first host is kept, and
-- every trace that has a connection has `dnsDone`, on which the durations rely.
pub run-IsTraced :
    (scheme host : String) (steps : List Step)
    → str_eq host "" ≡ false
    → Connects false steps
    → (t : Transport) × (run (request scheme host ∷ steps) new_transport ≡ some t)
      × IsTraced host (1 + requests steps) t
unfolding run round_trip
run-IsTraced scheme host steps named h =
    run-IsTraced_from host false steps [] (new_trace (str_eq scheme "https")) named tt (λ k. cc)
      (λ k. cc) h
