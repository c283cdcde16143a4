-- ===== src/Btc/Soundness.antt =====
-- What a probe of a Bitcoin node that succeeds has got from it.
use big_blackbox_exporter.Base.{
  ◌≡◌, refl, eq_refl, Bool, true, [], ◌∷◌, String, some, str_eq, if◌then◌else◌, Bool-cases, inl,
  inr,
}
use big_blackbox_exporter.Base.Int.{ℤ}
use big_blackbox_exporter.Float64.{Float64}
use big_blackbox_exporter.Metrics.{Registry, done, value_of}
use big_blackbox_exporter.Metrics.Inversion.{
  Partly-elim, Partly-register, Partly-or_fail, Partly-or_fault,
}
use big_blackbox_exporter.Btc.{host_of, BtcEnv, probe_btcrpc}

module _ (fl : Float64) {Client : Type 0} (env : BtcEnv Client) where
  open fl use {Num, of_int}

  -- The gauge shows the block count of the node.
  abbrev pub IsCounted : (target : String) → Client → Registry Num → Type 0
  IsCounted target client reg =
      (count : ℤ) × (env.get_block_count client ≡ some count)
      × (value_of "probe_btcrpc_block_number" (target ∷ []) reg ≡ some (of_int count))

  -- A client was made for the host of the target and the credentials of the request, and the
  -- module's query is answered.
  pub record IsQueried (target user pass module_name : String) (reg : Registry Num) : Type 0 where
    pub client : Client
    pub made :
        env.new_client (record {
          host = (host_of target).0;
          user = user;
          pass = pass;
          disable_tls = (host_of target).1;
        })
        ≡ some client
    pub queried : if str_eq module_name "btc_chain_info" then IsCounted target client reg else Unit

  -- A probe of a Bitcoin node that succeeds has made a client for the target's host and the
  -- credentials of the request, and for the module btc_chain_info the gauge shows the node's block
  -- count.
  pub probe_btcrpc-IsQueried :
      (target user pass module_name : String) (reg reg' : Registry Num)
      → probe_btcrpc fl env target user pass module_name reg ≡ done true reg'
      → IsQueried target user pass module_name reg'
  unfolding probe_btcrpc
  probe_btcrpc-IsQueried target user pass module_name reg reg' h =
      Partly-elim P _
        (Partly-or_fault P _ _ reg λ client made.
          elim (Bool-cases (str_eq module_name "btc_chain_info")) [
            | inl info ↦ rw info (
                Partly-register P "probe_btcrpc_block_number" _ reg (
                  Partly-or_fail P (env.get_block_count client) _ _ (λ e. cc)
                    λ count counted e. record {
                      client = client;
                      made = made;
                      queried = rw info (count, counted, rw (eq_refl target) refl);
                    }))
            | inr other ↦
                rw other λ e. record { client = client; made = made; queried = rw other tt }
          ])
        h refl
    where
      P : Bool → Registry Num → Type 0
      P b after = b ≡ true → IsQueried target user pass module_name after
