-- ===== src/Forward/Sockets/Opened.antt =====
-- internal/forward/udp.go, NewUDP: which sockets it opens, and which it closes before an error.
use mathlib.Core.List.{append_assoc, append-nil}
use snmptrap_relay.Forward.Sockets.{
  Network, Socket, resolve, new_target_conn, open_socket, open_loop, new_udp, conns,
}
use snmptrap_relay.Model.{ForwarderConfig}
use snmptrap_relay.Prelude.{
  ℕ, suc, ◌≡◌, ◌⊎◌, inl, inr, refl, ap, sym, ◌∙◌, List, [], ◌∷◌, ◌++◌, map, Bool, true, false,
  Bool-cases, if◌then◌else◌, arith,
}
use snmptrap_relay.Result.{Result, Error, ok, err, Result-cases}

-- The forwarders that are enabled.
abbrev pub enabled : List ForwarderConfig → List ForwarderConfig
enabled [] = []
enabled (item ∷ items) = if item.enabled then item ∷ enabled items else enabled items

module _ (net : Network) where
  -- The round at an enabled forwarder.
  abbrev open_loop_enabled :
      ℕ
      → List (Socket net)
      → ForwarderConfig
      → List ForwarderConfig
      → Result (List (Socket net)) × List ℕ
  open_loop_enabled call opened item items = elim (open_socket net call item) [
    | err e ↦ (err e, conns net opened)
    | ok s ↦ open_loop net (suc call) (opened ++ (s ∷ [])) items
  ]

  -- The rounds of the loop.
  open_loop_skip :
      (call : ℕ) (opened : List (Socket net)) (item : ForwarderConfig)
      (items : List ForwarderConfig)
      → item.enabled ≡ false
      → open_loop net call opened (item ∷ items) ≡ open_loop net call opened items
  unfolding open_loop
  open_loop_skip call opened item items off =
      let next = open_loop_enabled call opened item items in
      ap (λ (b : Bool). if b then next else open_loop net call opened items) off

  open_loop_refused :
      (call : ℕ) (opened : List (Socket net)) (item : ForwarderConfig)
      (items : List ForwarderConfig) (e : Error)
      → item.enabled ≡ true
      → open_socket net call item ≡ err e
      → open_loop net call opened (item ∷ items) ≡ (err e, conns net opened)
  unfolding open_loop
  open_loop_refused call opened item items e on refused =
      ap
        (λ (b : Bool).
          if b then open_loop_enabled call opened item items else open_loop net call opened items)
        on
      ∙ rw (refused, open_loop_enabled) refl

  open_loop_next :
      (call : ℕ) (opened : List (Socket net)) (item : ForwarderConfig)
      (items : List ForwarderConfig) (s : Socket net)
      → item.enabled ≡ true
      → open_socket net call item ≡ ok s
      → open_loop net call opened (item ∷ items)
        ≡ open_loop net (suc call) (opened ++ (s ∷ [])) items
  unfolding open_loop
  open_loop_next call opened item items s on given =
      ap
        (λ (b : Bool).
          if b then open_loop_enabled call opened item items else open_loop net call opened items)
        on
      ∙ rw (given, open_loop_enabled) refl

  -- A socket is for the forwarder that it is made for.
  open_socket_config :
      (call : ℕ) (item : ForwarderConfig) (s : Socket net)
      → open_socket net call item ≡ ok s
      → s.config ≡ item
  unfolding open_socket
  open_socket_config call item s h = elim (Result-cases (resolve net item.host item.port)) [
    | inl (e, wrong) ↦ absurd (ground arith)
    | inr (addr, right) ↦ elim (Result-cases (new_target_conn net call item.source_host addr)) [
      | inl (e, wrong) ↦ absurd (ground arith)
      | inr (conn, made) ↦ ground arith
    ]
  ]

  -- The ends of the loop: all sockets are there, or one is refused.
  abbrev IsOpened : ℕ → List (Socket net) → List ForwarderConfig → List (Socket net) → Type 0
  IsOpened call opened items sockets =
      (open_loop net call opened items ≡ (ok (opened ++ sockets), []))
      × (map (λ (s : Socket net). s.config) sockets ≡ enabled items)

  record IsRefused (call : ℕ) (opened : List (Socket net)) (items : List ForwarderConfig)
      (e : Error) (sockets : List (Socket net)) : Type 0 where
    before : List ForwarderConfig
    item : ForwarderConfig
    behind : List ForwarderConfig
    parts : items ≡ before ++ (item ∷ behind)
    opened_before : IsOpened call opened before sockets
    closed : open_loop net call opened items ≡ (err e, conns net (opened ++ sockets))

  nil-IsOpened : (call : ℕ) (opened : List (Socket net)) → IsOpened call opened [] []
  unfolding open_loop
  nil-IsOpened call opened =
      (ap (λ (l : List (Socket net)). (ok l, [])) (sym (append-nil opened)), refl)

  enabled_by :
      (b : Bool) (item : ForwarderConfig) (items : List ForwarderConfig)
      → item.enabled ≡ b
      → enabled (item ∷ items) ≡ (if b then item ∷ enabled items else enabled items)
  enabled_by b item items h = ap (λ (c : Bool). if c then item ∷ enabled items else enabled items) h

  -- A forwarder that is not enabled changes nothing.
  skip-IsOpened :
      (call : ℕ) (opened : List (Socket net)) (item : ForwarderConfig)
      (items : List ForwarderConfig) (sockets : List (Socket net))
      → item.enabled ≡ false
      → IsOpened call opened items sockets
      → IsOpened call opened (item ∷ items) sockets
  skip-IsOpened call opened item items sockets off (ends, configs) = (
    open_loop_skip call opened item items off ∙ ends,
    configs ∙ sym (enabled_by false item items off),
  )

  next-IsOpened :
      (call : ℕ) (opened : List (Socket net)) (item : ForwarderConfig)
      (items : List ForwarderConfig) (s : Socket net) (sockets : List (Socket net))
      → item.enabled ≡ true
      → open_socket net call item ≡ ok s
      → IsOpened (suc call) (opened ++ (s ∷ [])) items sockets
      → IsOpened call opened (item ∷ items) (s ∷ sockets)
  next-IsOpened call opened item items s sockets on given (ends, configs) = (
    open_loop_next call opened item items s on given
        ∙ ends
        ∙ ap (λ (l : List (Socket net)). (ok l, [])) (append_assoc opened (s ∷ []) sockets),
    cc (open_socket_config call item s given, configs) ∙ sym (enabled_by true item items on),
  )

  open_loop_cases :
      (call : ℕ) (opened : List (Socket net)) (items : List ForwarderConfig)
      → ((sockets : List (Socket net)) × IsOpened call opened items sockets)
        ⊎ ((e : Error) × (sockets : List (Socket net)) × IsRefused call opened items e sockets)
  open_loop_cases call opened [] = inl ([], nil-IsOpened call opened)
  open_loop_cases call opened (item ∷ items) = elim (Bool-cases item.enabled) [
    | inr off ↦ elim (open_loop_cases call opened items) [
      | inl (sockets, all) ↦ inl (sockets, skip-IsOpened call opened item items sockets off all)
      | inr (e, sockets, r) ↦ inr (
        e,
        sockets,
        record {
          before = item ∷ r.before;
          item = r.item;
          behind = r.behind;
          parts = ap (◌∷◌ item) r.parts;
          opened_before = skip-IsOpened call opened item r.before sockets off r.opened_before;
          closed = open_loop_skip call opened item items off ∙ r.closed;
        },
      )
    ]
    | inl on ↦ elim (Result-cases (open_socket net call item)) [
      | inl (e, refused) ↦ inr (
        e,
        [],
        record {
          before = [];
          item = item;
          behind = items;
          parts = refl;
          opened_before = nil-IsOpened call opened;
          closed =
              open_loop_refused call opened item items e on refused
              ∙ ap (λ (l : List (Socket net)). (err e, conns net l)) (sym (append-nil opened));
        },
      )
      | inr (s, given) ↦ elim (open_loop_cases (suc call) (opened ++ (s ∷ [])) items) [
        | inl (sockets, all) ↦
            inl (s ∷ sockets, next-IsOpened call opened item items s sockets on given all)
        | inr (e, sockets, r) ↦ inr (
          e,
          s ∷ sockets,
          record {
            before = item ∷ r.before;
            item = r.item;
            behind = r.behind;
            parts = ap (◌∷◌ item) r.parts;
            opened_before =
                next-IsOpened call opened item r.before s sockets on given r.opened_before;
            closed =
                open_loop_next call opened item items s on given
                ∙ r.closed
                ∙ ap (λ (l : List (Socket net)). (err e, conns net l))
                    (append_assoc opened (s ∷ []) sockets);
          },
        )
      ]
    ]
  ]

  -- NewUDP either returns a socket for each of the enabled forwarders, in their order, and closes none;
  -- or it returns an error, having stopped at one forwarder, and it closes the connections of all the
  -- enabled ones before that, which it had opened.
  pub new_udp_cases :
      (cfg : List ForwarderConfig)
      → ((sockets : List (Socket net)) × (new_udp net cfg ≡ (ok sockets, []))
          × (map (λ (s : Socket net). s.config) sockets ≡ enabled cfg))
        ⊎ ((e : Error) × (before : List ForwarderConfig) × (item : ForwarderConfig) × (behind : List
              ForwarderConfig)
            × (sockets : List (Socket net)) × (cfg ≡ before ++ (item ∷ behind))
            × (new_udp net before ≡ (ok sockets, []))
            × (map (λ (s : Socket net). s.config) sockets ≡ enabled before)
            × (new_udp net cfg ≡ (err e, conns net sockets)))
  unfolding new_udp
  new_udp_cases cfg = elim (open_loop_cases 0 [] cfg) [
    | inl (sockets, (ends, configs)) ↦ inl (sockets, ends, configs)
    | inr (e, sockets, r) ↦ inr (
      e, r.before, r.item, r.behind, sockets, r.parts, r.opened_before.0, r.opened_before.1,
      r.closed,
    )
  ]

  -- Without an error nothing is closed.
  pub new_udp_ok :
      (cfg : List ForwarderConfig) (sockets : List (Socket net)) (dropped : List ℕ)
      → new_udp net cfg ≡ (ok sockets, dropped)
      → new_udp net cfg ≡ (ok sockets, [])
  new_udp_ok cfg sockets dropped h = elim (new_udp_cases cfg) [
    | inl (found, ends, configs) ↦ ground arith
    | inr (e, before, item, behind, found, parts, ends, configs, wrong) ↦ absurd (ground arith)
  ]
