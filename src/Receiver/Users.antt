-- ===== src/Receiver/Users.antt =====
-- internal/receiver/decoder.go, Reload, New and Decode: which configurations make a decoder.
use snmptrap_relay.Model.{AppConfig, SnmpV3UserConfig}
use snmptrap_relay.Prelude.Int.{ℤ}
use snmptrap_relay.Prelude.{
  ℕ, ◌≡◌, ◌≢◌, refl, ap, sym, ◌⊎◌, List, [], ◌∷◌, Option, none, some, inl, inr, arith,
}
use snmptrap_relay.Receiver.{
  Gosnmp, Usm, Decoder, build_usm, add_users, security_table, reload, new_decoder, decode,
}
use snmptrap_relay.Result.{Error, ok, err, panicked, out_of_fuel, Result-cases}
use snmptrap_relay.Snmp.Loop.{parse_trap-ne-panicked, parse_trap-ne-out_of_fuel}
use snmptrap_relay.Snmp.{Library}
use snmptrap_relay.Text.{Text}

-- The tables that a list of users leads to: every user has parameters, and the table takes them, in
-- the order of the users.
pub data Adds (gosnmp : Gosnmp) : List SnmpV3UserConfig → gosnmp.Table → gosnmp.Table → Type 0 where
  no_more : {table : gosnmp.Table} → Adds gosnmp [] table table
  one_more :
      {user : SnmpV3UserConfig} {users : List SnmpV3UserConfig} {table next last : gosnmp.Table}
      (sec : Usm)
      → build_usm user ≡ ok sec
      → gosnmp.add user.user_name sec table ≡ ok next
      → Adds gosnmp users next last
      → Adds gosnmp (user ∷ users) table last

-- The table of the session of a configuration with these users.
pub data IsTable (gosnmp : Gosnmp) : List SnmpV3UserConfig → Option gosnmp.Table → Type 0 where
  no_users : IsTable gosnmp [] none
  some_users :
      {user : SnmpV3UserConfig} {users : List SnmpV3UserConfig} {last : gosnmp.Table}
      → Adds gosnmp (user ∷ users) gosnmp.new_table last
      → IsTable gosnmp (user ∷ users) (some last)

module _ (gosnmp : Gosnmp) where
  add_users-Adds :
      (users : List SnmpV3UserConfig) (table last : gosnmp.Table)
      → add_users gosnmp users table ≡ ok last
      → Adds gosnmp users table last
  unfolding add_users
  add_users-Adds [] table last h =
      let same : table ≡ last = ap (λ r. elim r [ err e ↦ table | ok t ↦ t ]) h in
      rw (sym same) no_more
  add_users-Adds (user ∷ users) table last h = elim (Result-cases (build_usm user)) [
    | inl (e, wrong) ↦ absurd (ground arith)
    | inr (sec, right) ↦ elim (Result-cases (gosnmp.add user.user_name sec table)) [
      | inl (e, refused) ↦ absurd (ground arith)
      | inr (next, added) ↦ one_more sec right added (add_users-Adds users next last (ground arith))
    ]
  ]

  security_table-IsTable :
      (users : List SnmpV3UserConfig) (table : Option gosnmp.Table)
      → security_table gosnmp users ≡ ok table
      → IsTable gosnmp users table
  unfolding security_table
  security_table-IsTable [] table h =
      let same : none ≡ table = ap (λ r. elim r [ err e ↦ none | ok t ↦ t ]) h in
      rw (sym same) no_users
  security_table-IsTable (user ∷ users) table h =
      elim (Result-cases (add_users gosnmp (user ∷ users) gosnmp.new_table)) [
        | inl (e, wrong) ↦ absurd (ground arith)
        | inr (last, right) ↦
            let same : some last ≡ table = ground arith in
            rw (sym same) (some_users (add_users-Adds (user ∷ users) gosnmp.new_table last right))
      ]

  -- Reload either returns an error and leaves the decoder as it was, or it returns none and the decoder
  -- has the new configuration and a session, with no table if there are no users, and otherwise with
  -- the table that holds the parameters of each of the users, added in their order.
  pub reload_cases :
      (cfg : AppConfig) (d : Decoder gosnmp)
      → ((e : Error) × (reload gosnmp cfg d ≡ (err e, d)))
        ⊎ ((table : Option gosnmp.Table) × (reload gosnmp cfg d
              ≡ (ok tt, record { g = some table; cfg = some cfg }))
            × IsTable gosnmp cfg.receiver.v3_users table)
  unfolding reload
  reload_cases cfg d = elim (Result-cases (security_table gosnmp cfg.receiver.v3_users)) [
    | inl (e, wrong) ↦ inl (e, rw (wrong, reload) refl)
    | inr (table, right) ↦
        inr
          (table, rw (right, reload) refl, security_table-IsTable cfg.receiver.v3_users table right)
  ]

  -- A decoder that New returns never dereferences a nil configuration, whatever the datagram and the
  -- library make of each other, and no loop of its parser is without end.
  pub decode-ne-panicked :
      (lib : Library) (now : ℤ) (cfg : AppConfig) (d : Decoder gosnmp) (bytes : List ℕ)
      (source_ip : Text) (source_port : ℤ)
      → new_decoder gosnmp cfg ≡ ok d
      → (decode gosnmp lib now d bytes source_ip source_port ≢ err panicked)
        × (decode gosnmp lib now d bytes source_ip source_port ≢ err out_of_fuel)
  unfolding new_decoder decode
  decode-ne-panicked lib now cfg d bytes source_ip source_port made =
      let bare : Decoder gosnmp = record { g = none; cfg = none } in
      elim (reload_cases cfg bare) [
        | inl (e, failed) ↦ absurd (ground arith)
        | inr (table, worked, holds) ↦
            let same : record { g = some table; cfg = some cfg } ≡ d = ground arith in
            rw (sym same) (
              ground (
                arith,
                parse_trap-ne-panicked lib now bytes source_ip source_port cfg.field_aliases,
                parse_trap-ne-out_of_fuel lib now bytes source_ip source_port cfg.field_aliases,
              ))
      ]
