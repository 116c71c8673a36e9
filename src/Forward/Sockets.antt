-- ===== src/Forward/Sockets.antt =====
-- internal/forward/udp.go, NewUDP: the sockets of the enabled forwarders. A connection is a number.
-- The texts that NewUDP puts in front of an error are not kept.
pub mod Dialled
pub mod Opened
use snmptrap_relay.Model.{ForwarderConfig}
use snmptrap_relay.Prelude.Int.{ℤ}
use snmptrap_relay.Prelude.{
  ℕ, suc, ◌≡◌, ◌⊎◌, inl, inr, refl, ap, sym, ◌∙◌, List, [], ◌∷◌, ◌++◌, map, Option, none, some,
  Bool, true, false, Bool-cases, if◌then◌else◌, arith,
}
use mathlib.Core.List.{append_assoc, append-nil}
use snmptrap_relay.Result.{Result, Error, ok, err, ◌>>=◌, Result-cases}
use snmptrap_relay.Text.Number.{int_text}
use snmptrap_relay.Text.{Text, lit, is_empty}

-- What the source calls of package net: ResolveUDPAddr, JoinHostPort, the test of udpNetwork on the
-- bytes of an address, and ListenUDP, by the number of the call.
pub record Network : Type 1 where
  pub Address : Type 0
  pub resolve_udp_addr : Text → Text → Result Address
  pub join_host_port : Text → Text → Text
  pub is_ipv6 : Address → Bool
  pub listen_udp : ℕ → Text → Option Address → Result ℕ

module _ (net : Network) where
  -- Target, as NewUDP makes it
  pub record Socket : Type 0 where
    pub config : ForwarderConfig
    pub addr : net.Address
    pub conn : ℕ

  -- resolve
  unfoldable pub resolve : Text → ℤ → Result net.Address
  unfolding int_text
  resolve host port = net.resolve_udp_addr (lit "udp") (net.join_host_port host (int_text port))

  -- udpNetwork
  unfoldable pub udp_network : net.Address → Text
  udp_network addr = if net.is_ipv6 addr then lit "udp6" else lit "udp4"

  -- newTargetConn
  unfoldable pub new_target_conn : ℕ → Text → net.Address → Result ℕ
  unfolding udp_network
  new_target_conn call source_host target =
      let network = udp_network target in
      if is_empty source_host then net.listen_udp call network none else (do
        local ← net.resolve_udp_addr network (net.join_host_port source_host (lit "0"))
        net.listen_udp call network (some local))

  -- One round of the loop of NewUDP, for an enabled forwarder.
  unfoldable pub open_socket : ℕ → ForwarderConfig → Result Socket
  unfolding resolve new_target_conn
  open_socket call item = do
    addr ← resolve item.host item.port
    conn ← new_target_conn call item.source_host addr
    ok (record { config = item; addr = addr; conn = conn })

  abbrev pub conns : List Socket → List ℕ
  conns sockets = map (λ (s : Socket). s.conn) sockets

  -- The loop of NewUDP, with the connections that it closes before it returns an error.
  unfoldable pub open_loop : ℕ → List Socket → List ForwarderConfig → Result (List Socket) × List ℕ
  open_loop call opened [] = (ok opened, [])
  open_loop call opened (item ∷ items) =
      let skipped = open_loop call opened items in
      let next : Result (List Socket) × List ℕ = elim (open_socket call item) [
        | err e ↦ (err e, conns opened)
        | ok s ↦ open_loop (suc call) (opened ++ (s ∷ [])) items
      ] in
      if item.enabled then next else skipped

  -- NewUDP
  unfoldable pub new_udp : List ForwarderConfig → Result (List Socket) × List ℕ
  unfolding open_loop
  new_udp cfg = open_loop 0 [] cfg
