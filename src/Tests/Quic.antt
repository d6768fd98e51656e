-- ===== src/Tests/Quic.antt =====
-- QUIC streams, sessions and engines at concrete inputs.
use mathlib.Core.Option
use reverse_proxy_server.Base.{
  false, Option, ℕ, ◌≤◌, ◌≡◌, ◌≢◌, refl, List, [], ◌∷◌, ◌++◌, some, true, arith, length, value_or,
}
use reverse_proxy_server.Text.{Bytes, codes}
use reverse_proxy_server.Transport.Quic.Stream.{
  WriteOp, QuicStream, new_stream, room, flush_queue, block_write, advance, write_front, pump_queue,
  pump_write, async_write_some, on_writeable, async_read_some, fail_read, finish_shutdown, on_close,
  on_reset,
}
use reverse_proxy_server.Transport.Quic.Stream.Machine.{
  Event, run, submitted, written, queued, writes, writeable, reads, resets,
}
use reverse_proxy_server.Transport.Quic.Stream.Completions.{callbacks, submitted_cbs, run-completes}
use reverse_proxy_server.Transport.Quic.Stream.Order.{
  unsent, due, handed_bytes, handed_results, run-fifo,
}
use reverse_proxy_server.Transport.Quic.Stream.Progress.{run-wanted}
use reverse_proxy_server.Transport.Quic.Stream.Drain.{report}
use reverse_proxy_server.Transport.Quic.Stream.Delivery.{run-drains}
use reverse_proxy_server.Transport.Quic.Stream.Closed.{Afterwards, on_close-IsDead}
use reverse_proxy_server.Transport.Quic.Stream.Twice.{nothing}

-- Two writes, of which lsquic first takes two bytes and later one.
abbrev two_writes : List Event
two_writes =
    writes (codes "abcd") 1 (room 2)
    ∷ reads 10 7
    ∷ writes (codes "ef") 2 (room 9)
    ∷ writeable (room 1)
    ∷ []

abbrev reached : List Event → QuicStream
reached es = value_or (run es new_stream) new_stream

abbrev two_waiting : QuicStream
two_waiting = reached two_writes

two_writes-reached : run two_writes new_stream ≡ some two_waiting
unfolding Option.bind async_write_some pump_write pump_queue write_front advance block_write
    on_writeable async_read_some
two_writes-reached = refl

two_waiting-accepted : two_waiting.accepted ≡ codes "abc"
unfolding Option.bind async_write_some pump_write pump_queue write_front advance block_write
    on_writeable async_read_some
two_waiting-accepted = refl

run-completes_example :
    callbacks (written two_waiting.called) ++ queued two_waiting.write_queue
    ≡ submitted_cbs two_writes
run-completes_example = run-completes two_writes two_waiting two_writes-reached

run-fifo_example :
    (two_waiting.accepted ++ unsent two_waiting.write_queue ≡ handed_bytes (submitted two_writes))
    × (written two_waiting.called ++ due two_waiting.write_queue
        ≡ handed_results (submitted two_writes))
run-fifo_example = run-fifo two_writes two_waiting (tt, (tt, (tt, (tt, tt)))) two_writes-reached

two_waiting-busy : two_waiting.write_queue ≢ []
unfolding Option.bind async_write_some pump_write pump_queue write_front advance block_write
    on_writeable async_read_some
two_waiting-busy = λ e. cc

run-wanted_example : (two_waiting.live ≡ true) × (two_waiting.want_write ≡ true)
run-wanted_example = run-wanted two_writes two_waiting two_writes-reached two_waiting-busy

two_waiting-live : two_waiting.live ≡ true
unfolding Option.bind async_write_some pump_write pump_queue write_front advance block_write
    on_writeable async_read_some
two_waiting-live = refl

abbrev rooms : List ℕ
rooms = 5 ∷ 1 ∷ 1 ∷ []

two_waiting-left : length (unsent two_waiting.write_queue) ≤ length rooms
unfolding Option.bind async_write_some pump_write pump_queue write_front advance block_write
    on_writeable async_read_some
two_waiting-left = omega arith

run-drains_example :
    ((report rooms two_waiting).write_queue ≡ [])
    × ((report rooms two_waiting).accepted ≡ two_waiting.accepted ++ unsent two_waiting.write_queue)
run-drains_example =
    run-drains two_writes two_waiting rooms ((λ e. cc), (tt, ((λ e. cc), (tt, tt))))
      two_writes-reached two_waiting-live (omega arith, (omega arith, (omega arith, tt)))
      two_waiting-left

-- A write and a reset after the end.
abbrev after_close : QuicStream
after_close =
    value_or (run (writes (codes "gh") 3 (room 9) ∷ resets 2 ∷ []) (on_close two_waiting))
      new_stream

after_close-reached :
    run (writes (codes "gh") 3 (room 9) ∷ resets 2 ∷ []) (on_close two_waiting) ≡ some after_close
unfolding Option.bind on_close on_reset fail_read finish_shutdown flush_queue async_write_some
    pump_write pump_queue write_front advance block_write on_writeable async_read_some
after_close-reached = refl

on_close-IsDead_example :
    Afterwards two_waiting.headers_cb two_waiting.accepted two_waiting.header_blocks false
      (run (writes (codes "gh") 3 (room 9) ∷ resets 2 ∷ []) (on_close two_waiting))
on_close-IsDead_example =
    on_close-IsDead two_waiting (writes (codes "gh") 3 (room 9) ∷ resets 2 ∷ [])

abbrev last_words : List (Option (Bytes × ℕ))
last_words = nothing [] ++ some (codes "x", 3) ∷ []

abbrev waiting_op : WriteOp
waiting_op = record { payload = codes "abcd"; offset = 2; cb = 1 }

abbrev stuck : QuicStream
stuck = record new_stream { write_queue = waiting_op ∷ []; writing = true }
