-- ===== src/Forward/Sockets/Dialled.antt =====
-- internal/forward/udp.go, NewUDP: the connections that net.ListenUDP gives it, told from the configuration
-- and the answers of the network alone, not from what NewUDP says that it returns or closes.
use mathlib.Core.List.{append_assoc, append-nil, map-append}
use snmptrap_relay.Forward.Sockets.{Network, Socket, open_socket, open_loop, new_udp, conns}
use snmptrap_relay.Model.{ForwarderConfig}
use snmptrap_relay.Prelude.{
  ℕ, suc, ◌≡◌, ◌∙◌, ap, sym, List, [], ◌∷◌, ◌++◌, Bool, true, false, inl, inr, if◌then◌else◌,
}
use snmptrap_relay.Result.{Result, Error, Result-cases, ok, err}

module _ (net : Network) where
  -- Each enabled forwarder in turn, up to the first that gets no connection.
  unfoldable pub dialled : ℕ → List ForwarderConfig → List ℕ
  dialled call [] = []
  dialled call (item ∷ items) =
      let skipped = dialled call items in
      let next : List ℕ = elim (open_socket net call item) [
        | err e ↦ []
        | ok s ↦ s.conn ∷ dialled (suc call) items
      ] in
      if item.enabled then next else skipped

  -- What NewUDP answers for: the connections that it returns, or those that it closes with its error.
  abbrev pub answered : Result (List (Socket net)) × List ℕ → List ℕ
  answered (err e, dropped) = dropped
  answered (ok sockets, dropped) = conns net sockets

  answered-if :
      (b : Bool) (r q : Result (List (Socket net)) × List ℕ) (c xs ys : List ℕ)
      → answered r ≡ c ++ xs
      → answered q ≡ c ++ ys
      → answered (if b then r else q) ≡ c ++ (if b then xs else ys)
  answered-if true r q c xs ys hr hq = hr
  answered-if false r q c xs ys hr hq = hq

  answered-open_loop :
      (call : ℕ) (opened : List (Socket net)) (items : List ForwarderConfig)
      → answered (open_loop net call opened items) ≡ conns net opened ++ dialled call items
  unfolding open_loop dialled
  answered-open_loop call opened [] = sym (append-nil (conns net opened))
  answered-open_loop call opened (item ∷ items) =
      answered-if item.enabled _ _ (conns net opened) _ _
        (elim (Result-cases (open_socket net call item)) [
          | inl (e, refused) ↦ rw refused (sym (append-nil (conns net opened)))
          | inr (s, given) ↦ rw given (
              answered-open_loop (suc call) (opened ++ (s ∷ [])) items
              ∙ ap (λ (l : List ℕ). l ++ dialled (suc call) items)
                  (map-append (λ (t : Socket net). t.conn) opened (s ∷ []))
              ∙ append_assoc (conns net opened) (s.conn ∷ []) (dialled (suc call) items))
        ])
        (answered-open_loop call opened items)

  -- NewUDP returns or closes each connection that it is given, in their order.
  pub answered-new_udp : (cfg : List ForwarderConfig) → answered (new_udp net cfg) ≡ dialled 0 cfg
  unfolding new_udp
  answered-new_udp cfg = answered-open_loop 0 [] cfg

  -- Behind an error it has closed them all.
  pub new_udp_refused :
      (cfg : List ForwarderConfig) (e : Error) (dropped : List ℕ)
      → new_udp net cfg ≡ (err e, dropped)
      → dropped ≡ dialled 0 cfg
  new_udp_refused cfg e dropped h = rw h at (answered-new_udp cfg)
