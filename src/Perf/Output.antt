-- ===== src/Perf/Output.antt =====
-- cmd/snmptrap-relay-perf/main.go: the output of main, and reserveUDPPort. A connection is a number; what the
-- JSON encoder writes of the results is a parameter.
use snmptrap_relay.Perf.Load.{StepResult}
use snmptrap_relay.Prelude.Int.{ℤ}
use snmptrap_relay.Prelude.{ℕ, Bool, true, false, List, [], ◌∷◌, ◌++◌, if◌then◌else◌}
use snmptrap_relay.Result.{Result, ok, err}
use snmptrap_relay.Text.Number.{int_text, nat_text}
use snmptrap_relay.Text.{Text, lit}

-- %t
abbrev bool_text : Bool → Text
bool_text true = lit "true"
bool_text false = lit "false"

-- The line of Printf for one result.
unfoldable pub result_line : StepResult → Text
unfolding int_text nat_text
result_line res =
    lit "target="
    ++ (int_text res.target_tps
        ++ (lit " sent="
            ++ (nat_text res.sent
                ++ (lit " received="
                    ++ (nat_text res.received
                        ++ (lit " forwarded="
                            ++ (nat_text res.forwarded
                                ++ (lit " queue_dropped="
                                    ++ (nat_text res.queue_dropped
                                        ++ (lit " loss_free="
                                            ++ (bool_text res.loss_free ++ lit "\n")))))))))))

unfoldable pub result_lines : List StepResult → Text
unfolding result_line
result_lines [] = []
result_lines (res ∷ results) = result_line res ++ result_lines results

-- What main writes, by the flag -json.
unfoldable pub output : (List StepResult → Text) → Bool → List StepResult → Text
unfolding result_lines
output encode json_out results = if json_out then encode results else result_lines results

-- reserveUDPPort, with the connections that it has closed when it returns
unfoldable pub reserve_udp_port : (ℕ → ℤ) → Result ℕ → Result ℤ × List ℕ
reserve_udp_port local_port (err e) = (err e, [])
reserve_udp_port local_port (ok conn) = (ok (local_port conn), conn ∷ [])
