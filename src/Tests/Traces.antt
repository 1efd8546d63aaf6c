-- ===== src/Tests/Traces.antt =====
-- src/sv_interface/callbacks2.c, the messages of traces.
use libsieve.Prelude.{some, none, codes, length, replicate, pos, ◌≡◌, refl}
use libsieve.Run.{ok, sieve2_ok}
use libsieve.Callbacks.Trace.{trace_message, do_debug_trace}
use libsieve.Tests.Evaluator.{telling}

a_short_message_is_whole : trace_message (some (codes "begin")) ≡ codes "begin"
unfolding trace_message
a_short_message_is_whole = refl

-- The last character is lost, and the message is not replaced.
at_1023_bytes_one_is_lost : length (trace_message (some (replicate 1023 97))) ≡ 1022
unfolding trace_message
at_1023_bytes_one_is_lost = refl

no_context_is_no_error :
    do_debug_trace telling (pos 4) none none none (some (codes "begin")) none ≡ ok (sieve2_ok, none)
unfolding do_debug_trace
no_context_is_no_error = refl
