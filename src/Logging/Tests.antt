-- ===== src/Logging/Tests.antt =====
-- Runs of the log functions.
use fusg.Base.{true, List, [], ◌∷◌, some, codes, ◌≡◌}
use fusg.Logging.State.{
  ll_info, ll_error, ll_debug, initial, stderr_line, file_line, file_flush, stderr_flush,
  stdout_flush,
}
use fusg.Logging.Sinks.{
  Request, init, set_log_levels, setup_file, finalize, message, perform_all, describe_all,
  first_view,
}
use fusg.Logging.Outputs.{outputs, described, perform_all-described}

-- the start of the daemon with a log file, on a terminal
abbrev start_up : List Request
start_up =
    set_log_levels ll_info ll_debug ll_info
    ∷ init true (codes "fusgd")
    ∷ setup_file 3 true
    ∷ message ll_debug (codes "a")
    ∷ set_log_levels ll_error ll_debug ll_error
    ∷ message ll_error (codes "b")
    ∷ finalize
    ∷ []

start_up-outputs :
    outputs (perform_all start_up initial)
    ≡ some (
        file_flush (some 3)
        ∷ stdout_flush
        ∷ stderr_flush
        ∷ file_flush (some 3)
        ∷ file_line 3 ll_error (codes "b")
        ∷ stderr_line ll_error (codes "b")
        ∷ file_flush (some 3)
        ∷ file_line 3 ll_debug (codes "a")
        ∷ stdout_flush
        ∷ stderr_flush
        ∷ [])
start_up-outputs = perform_all-described start_up

perform_all-described_example :
    outputs (perform_all start_up initial) ≡ described (describe_all start_up first_view)
perform_all-described_example = perform_all-described start_up
